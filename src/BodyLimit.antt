-- ===== src/BodyLimit.antt =====
-- The cap on request bodies: hymical_forms/middleware.py. An application is what it does next: read
-- a message, send one, end, or raise.
pub mod Guarantees
use forms.Prelude.{
  ℕ, ◌+◌, Bool, true, false, not, ◌&&◌, Option, none, some, List, [], ◌∷◌, ◌++◌, length, ltb, ◌==◌,
  codes, if◌then◌else◌,
}
use forms.Exceptions.{Exception, Result, ok, err, request_body_too_large}

pub data Incoming : Type 0 where
  request : (body : List ℕ) → Incoming
  disconnect : Incoming

pub data Outgoing : Type 0 where
  response_start : (status : ℕ) → Outgoing
  response_body : (body : List ℕ) → Outgoing

-- What a message carries of the body.
abbrev pub body_length : Incoming → ℕ
body_length (request body) = length body
body_length disconnect = 0

pub data App : Type 0 where
  finish : App
  fail : Exception → App
  receive : (Result Incoming → App) → App
  send : Outgoing → App → App

-- What went out, how many bytes of body the application was given, and what it raised.
pub record Exchange : Type 0 where
  pub sent : List Outgoing
  pub given : ℕ
  pub raised : Option Exception

abbrev pub sending : List Outgoing → Exchange → Exchange
sending messages exchange = record exchange { sent = messages ++ exchange.sent }

abbrev pub giving : ℕ → Exchange → Exchange
giving n exchange = record exchange { given = n + exchange.given }

abbrev ended : Option Exception → Exchange
ended raised = record { sent = []; given = 0; raised = raised }

-- An application on its own; the messages that were not sent are followed by a disconnect.
unfoldable pub serve : App → List Incoming → Exchange
serve finish incoming = ended none
serve (fail e) incoming = ended (some e)
serve (receive on) [] = serve (on (ok disconnect)) []
serve (receive on) (message ∷ rest) = giving (body_length message) (serve (on (ok message)) rest)
serve (send message on) incoming = sending (message ∷ []) (serve on incoming)

-- `RequestBodyTooLarge(...).as_response()`, rendered by `render`
abbrev pub too_large : (render : ℕ → List ℕ) → (max_bytes : ℕ) → List Outgoing
too_large render max_bytes = response_start 413 ∷ response_body (render max_bytes) ∷ []

-- Is the message to be replaced by the refusal?
abbrev pub is_other_start : Outgoing → Bool
is_other_start (response_start status) = not (status == 413)
is_other_start (response_body body) = false

-- `received`, `overflowed` and `replaced`
pub record Guard : Type 0 where
  pub received : ℕ
  pub overflowed : Bool
  pub replaced : Bool

-- What an answer to a read gives the application of the body.
abbrev pub given_of : Result Incoming → ℕ
given_of (ok message) = body_length message
given_of (err e) = 0

abbrev pub exceeds : ℕ → Option ℕ → Bool
exceeds max_bytes none = false
exceeds max_bytes (some n) = ltb max_bytes n

module _ (render : ℕ → List ℕ) (max_bytes : ℕ) where
  -- `guarded_send`
  unfoldable pub guarded_send : Guard → Outgoing → List Outgoing × Guard
  guarded_send guard message =
      if guard.replaced
      then ([], guard)
      else if guard.overflowed && is_other_start message
      then (too_large render max_bytes, record guard { replaced = true })
      else (message ∷ [], guard)

  -- `limited_receive`
  unfoldable pub limited_receive : Guard → Incoming → Result Incoming × Guard
  limited_receive guard disconnect = (ok disconnect, guard)
  limited_receive guard (request body) =
      let received = guard.received + length body in
      if ltb max_bytes received
      then (
        err (request_body_too_large max_bytes),
        record guard { received = received; overflowed = true },
      )
      else (ok (request body), record guard { received = received })

  -- The application between the two.
  unfoldable pub guarded : App → Guard → List Incoming → Exchange
  unfolding guarded_send limited_receive
  guarded finish guard incoming = ended none
  guarded (fail e) guard incoming = ended (some e)
  guarded (receive on) guard [] =
      let (message, guard') = limited_receive guard disconnect in guarded (on message) guard' []
  guarded (receive on) guard (message ∷ rest) =
      let (answer, guard') = limited_receive guard message in
      giving (given_of answer) (guarded (on answer) guard' rest)
  guarded (send message on) guard incoming =
      let (messages, guard') = guarded_send guard message in
      sending messages (guarded on guard' incoming)

  -- A request, by its declared length, if that is there and a number; other scopes go through.
  unfoldable pub call : App → (is_http : Bool) (declared : Option ℕ) → List Incoming → Exchange
  unfolding guarded serve
  call app false declared incoming = serve app incoming
  call app true declared incoming =
      let limited =
        guarded app (record { received = 0; overflowed = false; replaced = false }) incoming in
      if exceeds max_bytes declared
      then record { sent = too_large render max_bytes; given = 0; raised = none }
      else limited

-- The first header `content-length`; `int` is Python's, on the bytes of the value.
unfoldable pub declared_content_length :
    (int : List ℕ → Option ℕ) → List (List ℕ × List ℕ) → Option ℕ
declared_content_length int [] = none
declared_content_length int ((name, value) ∷ rest) =
    let later = declared_content_length int rest in
    if same name (codes "content-length") then int value else later
  where
    same : List ℕ → List ℕ → Bool
    same [] [] = true
    same (c ∷ cs) (d ∷ ds) = c == d && same cs ds
    same _ _ = false
