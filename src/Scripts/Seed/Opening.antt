-- ===== src/Scripts/Seed/Opening.antt =====
-- The opening of seed-claimable.ts: what it confirms before it registers the router.
use mathlib.Core.Path.{subst}
use router_pulse_depin_proto.Common.{
  ℕ, ◌+◌, ◌-◌, ◌<◌, ◌≤◌, String, Option, none, some, List, [], ◌∷◌, ◌++◌, ◌≡◌, refl, sym, ap, ◌∙◌,
  ltb, arith, Bool-cases, inl, inr,
}
use router_pulse_depin_proto.Simulator.Acts.{
  Instruction, create_token_account, mint_genesis, Protocol, Ran, done, threw, Program, Sim, pure,
  bind, caught, read, call, noted,
}
use router_pulse_depin_proto.Simulator.Triples.{After, Triple, bind-Triple}
use router_pulse_depin_proto.Scripts.Seed.{with_token_account, minted, funded}

module _ (program : Program) (need : ℕ) where
  open program use {World, token_balance, send}

  -- The genesis mint that a balance asks for: none if it is enough, else the one that makes up for
  -- what it lacks.
  pub data Topping (w : World) : List Instruction → Type 0 where
    enough : (balance : ℕ) → token_balance w ≡ done balance → need ≤ balance → Topping w []
    lacking :
        (balance n : ℕ)
        → token_balance w ≡ done balance
        → balance < need
        → balance + n ≡ need
        → Topping w (mint_genesis n ∷ [])

  -- What goes before the registration, from a world on: a token account is created exactly if the
  -- read of its balance throws, and the balance that counts is the one that is read after that.
  pub data Opening (w : World) : List Instruction → Type 0 where
    there :
        {is : List Instruction} (balance : ℕ)
        → token_balance w ≡ done balance
        → Topping w is
        → Opening w is
    created :
        {is : List Instruction} (e : String) (w' : World)
        → token_balance w ≡ threw e
        → send create_token_account w ≡ (w', none)
        → Topping w' is
        → Opening w (is ++ create_token_account ∷ [])

snoc-append :
    (is : List Instruction) (i : Instruction) (js : List Instruction)
    → (is ++ i ∷ []) ++ js ≡ is ++ i ∷ js
snoc-append [] i js = refl
snoc-append (x ∷ is) i js = ap (λ l. x ∷ l) (snoc-append is i js)

module _ (program : Program) (p : Protocol) (origin : program.World)
    (before : List Instruction) where
  abbrev pub Any : Sim program.World → Type 0
  Any s = Unit

  -- What has been confirmed: `is`, the latest first, after the opening that the script's first world
  -- asks for.
  abbrev pub Above : List Instruction → Sim program.World → Type 0
  Above is s =
      (o : List Instruction) × Opening program p.min_stake origin o
      × (s.confirmed ≡ is ++ (o ++ before))

  pub read-Above :
      {A : Type 0} (is : List Instruction) (f : program.World → Ran A)
      → Triple program (Above is) (read program f) (Above is) Any
  read-Above is f s h = weaken (f s.world) s h
    where
      weaken :
          {A : Type 0} (r : Ran A) (s : Sim program.World)
          → Above is s
          → After program (Above is) Any (r, s)
      weaken (done a) s h = h
      weaken (threw e) s h = tt

  -- Where the token account is there: as it was, or created.
  pub data Ready (s : Sim program.World) : Type 0 where
    was_there :
        (balance : ℕ)
        → program.token_balance origin ≡ done balance
        → s.world ≡ origin
        → s.confirmed ≡ before
        → Ready s
    is_created :
        (e : String)
        → program.token_balance origin ≡ threw e
        → program.send create_token_account origin ≡ (s.world, none)
        → s.confirmed ≡ create_token_account ∷ before
        → Ready s

  account_made :
      (e : String) (s : Sim program.World) (r : program.World × Option String)
      → program.token_balance origin ≡ threw e
      → program.send create_token_account origin ≡ r
      → s.confirmed ≡ before
      → After program Ready Any (noted program create_token_account r s)
  account_made e s (w, none) unread sent same =
      Ready.is_created e unread sent (ap (λ l. create_token_account ∷ l) same)
  account_made e s (w, some m) unread sent same = tt

  account_read :
      (r : Ran ℕ) (s : Sim program.World)
      → program.token_balance origin ≡ r
      → s.world ≡ origin
      → s.confirmed ≡ before
      → After program Ready Any (
          caught program
            (bind program (λ u. (r, u)) (λ balance. pure program tt))
            (λ e. call program create_token_account)
            s)
  account_read (done balance) s e same none_yet = Ready.was_there balance e same none_yet
  account_read (threw m) s e same none_yet =
      account_made m s (program.send create_token_account s.world) e
        (ap (program.send create_token_account) (sym same)) none_yet

  pub account-Ready :
      (s : Sim program.World)
      → s.world ≡ origin
      → s.confirmed ≡ before
      → After program Ready Any (with_token_account program s)
  unfolding with_token_account
  account-Ready s same none_yet =
      account_read (program.token_balance s.world) s (ap program.token_balance (sym same)) same
        none_yet

  opened :
      (s t : Sim program.World) (is : List Instruction)
      → Ready s
      → Topping program p.min_stake s.world is
      → t.confirmed ≡ is ++ s.confirmed
      → Above [] t
  opened s t is (was_there balance e same none_yet) top more = (
    is,
    Opening.there balance e (subst (λ w. Topping program p.min_stake w is) same top),
    more ∙ ap (λ l. is ++ l) none_yet,
  )
  opened s t is (is_created e unread sent before_it) top more = (
    is ++ create_token_account ∷ [],
    Opening.created e s.world unread sent top,
    more ∙ ap (λ l. is ++ l) before_it ∙ sym (snoc-append is create_token_account before),
  )

  mint_opens :
      (n : ℕ) (s : Sim program.World) (r : program.World × Option String)
      → Ready s
      → Topping program p.min_stake s.world (mint_genesis n ∷ [])
      → After program (Above []) Any (noted program (mint_genesis n) r s)
  mint_opens n s (w, none) ready top =
      opened s (record s { world = w; confirmed = mint_genesis n ∷ s.confirmed })
        (mint_genesis n ∷ []) ready top refl
  mint_opens n s (w, some m) ready top = tt

  minted-Above :
      (balance : ℕ) (s : Sim program.World)
      → Ready s
      → program.token_balance s.world ≡ done balance
      → After program (Above []) Any (minted program p.min_stake balance s)
  minted-Above balance s ready e =
      let n = p.min_stake - balance in
      elim (Bool-cases (ltb balance p.min_stake)) [
        | inl low ↦ rw low (
            bind-Triple program
              (λ u. Ready u × Topping program p.min_stake u.world (mint_genesis n ∷ [])) (Above [])
              (Above []) Any _ _
              (λ u h. mint_opens n u (program.send (mint_genesis n) u.world) h.0 h.1)
              (λ sent.
                bind-Triple program (Above []) (Above []) (Above []) Any _ _
                  (read-Above [] program.token_balance) (λ b u h. h))
              s (ready, Topping.lacking balance n e (ground (arith, low)) (ground (arith, low))))
        | inr high ↦
            rw high (opened s s [] ready (Topping.enough balance e (ground (arith, high))) refl)
      ]

  funded_read :
      (r : Ran ℕ) (s : Sim program.World)
      → Ready s
      → program.token_balance s.world ≡ r
      → After program (Above []) Any (bind program (λ u. (r, u)) (minted program p.min_stake) s)
  funded_read (done balance) s ready e = minted-Above balance s ready e
  funded_read (threw m) s ready e = tt

  pub funded-Above : Triple program Ready (funded program p.min_stake) (Above []) Any
  unfolding funded
  funded-Above s ready = funded_read (program.token_balance s.world) s ready refl
