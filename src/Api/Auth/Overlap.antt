-- ===== src/Api/Auth/Overlap.antt =====
-- Calls of `verify` of api/src/auth/auth.service.ts that overlap: each reads the challenge in one turn
-- and goes on in a later one, in which it also burns the challenge and signs its token; other calls may
-- come in between.
use router_pulse_depin_proto.Common.{
  ℕ, zero, suc, ◌+◌, String, Bool, Option, none, some, List, [], ◌∷◌, ◌++◌, ◌≡◌, refl, ap, ◌∙◌,
  arith,
}
use router_pulse_depin_proto.Api.Auth.{
  Redis, Verified, Refusal, token, examined, concluded, looked_up, answer, verify,
}

-- A call comes and reads; or the call that has come last, of those that have read, goes on.
pub data Turn : Type 0 where
  reads : (wallet signature : String) → Turn
  concludes : Turn

-- A call that has read, with what it has read.
pub record Waiting : Type 0 where
  pub wallet : String
  pub signature : String
  pub message : Option String

abbrev pub times {ℓ} : {A : Type ℓ} → ℕ → A → List A
times zero x = []
times (suc n) x = x ∷ times n x

module _ (redis : Redis) (check : String → String → String → Option Bool)
    (sign : String → String) where
  -- The store, the calls that have read, and what the others were answered, the latest first.
  pub record Service : Type 0 where
    pub store : redis.Store
    pub waiting : List Waiting
    pub answers : List Verified

  abbrev called :
      String → String → List Waiting → List Verified → Option String × redis.Store → Service
  called wallet signature waiting answers (message, s) = record {
    store = s;
    waiting = record { wallet = wallet; signature = signature; message = message } ∷ waiting;
    answers = answers;
  }

  abbrev answered : List Waiting → List Verified → Verified × redis.Store → Service
  answered waiting answers (v, s) = record { store = s; waiting = waiting; answers = v ∷ answers }

  abbrev continued : List Waiting → Service → Service
  continued [] t = t
  continued (w ∷ ws) t =
      answered ws t.answers (answer redis check sign w.wallet w.signature w.message t.store)

  abbrev turn : Turn → Service → Service
  turn (reads wallet signature) t =
      called wallet signature t.waiting t.answers (looked_up redis check sign wallet t.store)
  turn concludes t = continued t.waiting t

  unfoldable pub run : List Turn → Service → Service
  run [] t = t
  run (u ∷ us) t = run us (turn u t)

  abbrev pub idle : redis.Store → Service
  idle s = record { store = s; waiting = []; answers = [] }

  module _ (wallet signature : String) (s : redis.Store) where
    abbrev a_call : Waiting
    a_call = record {
      wallet = wallet;
      signature = signature;
      message = (looked_up redis check sign wallet s).0;
    }

    run-reads :
        (n k : ℕ) (later : List Turn)
        → run
            (times n (reads wallet signature) ++ later)
            (record { store = s; waiting = times k a_call; answers = [] })
          ≡ run later (record { store = s; waiting = times (n + k) a_call; answers = [] })
    unfolding run
    run-reads zero k later = let e : 0 + k ≡ k = omega arith in rw e refl
    run-reads (suc n) k later =
        run-reads n (suc k) later
        ∙ ap (λ i. run later (record { store = s; waiting = times i a_call; answers = [] }))
            (omega arith)

    concluded_anywhere :
        (o : Option Refusal) (u v : redis.Store)
        → (concluded redis check sign wallet o u).0 ≡ (concluded redis check sign wallet o v).0
    concluded_anywhere none u v = refl
    concluded_anywhere (some refusal) u v = refl

    run-concludes :
        (t : String)
        → (verify redis check sign wallet signature s).0 ≡ token t
        → (n k : ℕ) (u : redis.Store)
        → (run
            (times n concludes)
            (record { store = u; waiting = times n a_call; answers = times k (token t) })).answers
          ≡ times (n + k) (token t)
    unfolding run verify
    run-concludes t h zero k u = let e : 0 + k ≡ k = omega arith in rw e refl
    run-concludes t h (suc n) k u =
        let o =
          examined redis check sign wallet signature (looked_up redis check sign wallet s).0 in
        let u' = (concluded redis check sign wallet o u).1 in
        ap
          (λ v.
            (run (times n concludes) (record {
              store = u';
              waiting = times n a_call;
              answers = v ∷ times k (token t);
            })).answers)
          (concluded_anywhere o u s ∙ h)
        ∙ run-concludes t h n (suc k) u'
        ∙ ap (λ i. times i (token t)) (omega arith)

  -- Where a signature would open a session if it came alone, any number of calls with it that have
  -- all read the challenge before the first of them goes on open a session each.
  pub overlapping-open_each :
      (wallet signature t : String) (s : redis.Store) (n : ℕ)
      → (verify redis check sign wallet signature s).0 ≡ token t
      → (run (times n (reads wallet signature) ++ times n concludes) (idle s)).answers
        ≡ times n (token t)
  overlapping-open_each wallet signature t s n h =
      let e : n + 0 ≡ n = omega arith in
      rw (run-reads wallet signature s n 0 (times n concludes), e)
        (run-concludes wallet signature s t h n 0 s ∙ ap (λ i. times i (token t)) e)
