-- ===== src/BodyLimit/Guarantees.antt =====
-- What the cap on request bodies promises: hymical_forms/middleware.py.
use forms.Prelude.{
  ℕ, ◌+◌, ◌-◌, ◌≤◌, ◌<◌, ◌≡◌, refl, ap, Bool, true, false, Option, List, [], ◌∷◌, arith, length,
  ltb, All, Bool-cases, inl, inr,
}
use forms.Exceptions.{Result, ok, err, request_body_too_large}
use forms.BodyLimit.{
  Incoming, request, disconnect, Outgoing, App, finish, fail, receive, send, sending, giving,
  body_length, serve, Guard, is_other_start, guarded_send, limited_receive, guarded, call, exceeds,
}

-- The bytes of body that are sent.
abbrev pub total : List Incoming → ℕ
total [] = 0
total (message ∷ rest) = body_length message + total rest

module _ (render : ℕ → List ℕ) (max_bytes : ℕ) where
  received-guarded_send :
      (guard : Guard) (message : Outgoing)
      → (guarded_send render max_bytes guard message).1.received ≡ guard.received
  unfolding guarded_send
  received-guarded_send guard message = ground arith

  given-guarded :
      (app : App) (guard : Guard) (incoming : List Incoming)
      → (guarded render max_bytes app guard incoming).given ≤ max_bytes - guard.received
  unfolding guarded limited_receive
  given-guarded finish guard incoming = omega arith
  given-guarded (fail e) guard incoming = omega arith
  given-guarded (receive on) guard [] = given-guarded (on (ok disconnect)) guard []
  given-guarded (receive on) guard (disconnect ∷ rest) =
      omega (arith, given-guarded (on (ok disconnect)) guard rest)
  given-guarded (receive on) guard (request body ∷ rest) =
      let received = guard.received + length body in
      elim (Bool-cases (ltb max_bytes received)) [
        | inl over ↦ rw over (
            omega (
              arith,
              given-guarded (on (err (request_body_too_large max_bytes)))
                  (record guard { received = received; overflowed = true }) rest,
            ))
        | inr fits ↦
            let room : received ≤ max_bytes = ground (arith, fits) in
            rw fits (
              omega (
                arith,
                room,
                given-guarded (on (ok (request body))) (record guard { received = received }) rest,
              ))
      ]
  given-guarded (send message on) guard incoming = omega (
    arith,
    given-guarded on (guarded_send render max_bytes guard message).1 incoming,
    received-guarded_send guard message,
  )

  -- A guard that has seen an overflow starts no response with another status than 413.
  flagged :
      (app : App) (received : ℕ) (replaced : Bool) (incoming : List Incoming)
      → All
          (λ message. is_other_start message ≡ false)
          (guarded render max_bytes app
            (record { received = received; overflowed = true; replaced = replaced })
            incoming).sent
  unfolding guarded limited_receive guarded_send
  flagged finish n replaced incoming = tt
  flagged (fail e) n replaced incoming = tt
  flagged (receive on) n replaced [] = flagged (on (ok disconnect)) n replaced []
  flagged (receive on) n replaced (disconnect ∷ rest) = flagged (on (ok disconnect)) n replaced rest
  flagged (receive on) n replaced (request body ∷ rest) =
      let received = n + length body in
      elim (Bool-cases (ltb max_bytes received)) [
        | inl over ↦
            rw over (flagged (on (err (request_body_too_large max_bytes))) received replaced rest)
        | inr fits ↦ rw fits (flagged (on (ok (request body))) received replaced rest)
      ]
  flagged (send message on) n true incoming = flagged on n true incoming
  flagged (send message on) n false incoming = elim (Bool-cases (is_other_start message)) [
    | inl other ↦ rw other (refl, (refl, flagged on n true incoming))
    | inr same ↦ rw same (same, flagged on n false incoming)
  ]

  -- From the read on which the body exceeds the cap, no response is started with another status
  -- than 413, whatever the application does, whatever follows, and whether or not a refusal has
  -- gone out in its place.
  pub guarded_overflowed :
      (on : Result Incoming → App) (guard : Guard) (body : List ℕ) (rest : List Incoming)
      → max_bytes < guard.received + length body
      → All
          (λ message. is_other_start message ≡ false)
          (guarded render max_bytes (receive on) guard (request body ∷ rest)).sent
  unfolding guarded limited_receive
  guarded_overflowed on guard body rest over =
      let seen : ltb max_bytes (guard.received + length body) ≡ true = ground (arith, over) in
      rw seen (
        flagged (on (err (request_body_too_large max_bytes))) (guard.received + length body)
          guard.replaced rest)

  guarded-serve :
      (app : App) (received : ℕ) (incoming : List Incoming)
      → received + total incoming ≤ max_bytes
      → guarded render max_bytes app
          (record { received = received; overflowed = false; replaced = false })
          incoming
        ≡ serve app incoming
  unfolding guarded limited_receive guarded_send serve
  guarded-serve finish n incoming h = refl
  guarded-serve (fail e) n incoming h = refl
  guarded-serve (receive on) n [] h = guarded-serve (on (ok disconnect)) n [] h
  guarded-serve (receive on) n (disconnect ∷ rest) h =
      ap (giving 0) (guarded-serve (on (ok disconnect)) n rest (omega (arith, h)))
  guarded-serve (receive on) n (request body ∷ rest) h =
      let fits : ltb max_bytes (n + length body) ≡ false = ground (arith, h) in
      rw fits (
        ap (giving (length body))
          (guarded-serve (on (ok (request body))) (n + length body) rest (omega (arith, h))))
  guarded-serve (send message on) n incoming h =
      ap (sending (message ∷ [])) (guarded-serve on n incoming h)

  -- A request whose declared length, if it has one, and whose body are within the cap is served
  -- as it would be without it: the same messages go out, the application is given the same bytes
  -- and it raises the same.
  pub call_transparent :
      (app : App) (declared : Option ℕ) (incoming : List Incoming)
      → exceeds max_bytes declared ≡ false
      → total incoming ≤ max_bytes
      → call render max_bytes app true declared incoming ≡ serve app incoming
  unfolding call
  call_transparent app declared incoming short fits =
      rw short (guarded-serve app 0 incoming (omega (arith, fits)))

  -- An application is never given more bytes of a request's body than the cap, whatever length the
  -- request declares and however its body is split; none where it declares more than the cap.
  pub given-call :
      (app : App) (declared : Option ℕ) (incoming : List Incoming)
      → let exchange = call render max_bytes app true declared incoming in
        (exchange.given ≤ max_bytes) × (exceeds max_bytes declared ≡ true → exchange.given ≡ 0)
  unfolding call
  given-call app declared incoming = elim (Bool-cases (exceeds max_bytes declared)) [
    | inl long ↦ rw long (omega arith, λ e. refl)
    | inr short ↦ rw short (
      omega (
        arith,
        given-guarded app (record { received = 0; overflowed = false; replaced = false }) incoming,
      ),
      λ e. cc,
    )
  ]
