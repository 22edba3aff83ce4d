-- ===== src/Simulator/Triples.antt =====
-- Conditions before and after an act: on its state where it ends, and where it throws.
use router_pulse_depin_proto.Common.{
  String, Bool, true, false, Option, none, some, ◌∷◌, if◌then◌else◌,
}
use router_pulse_depin_proto.Simulator.Acts.{
  Instruction, Ran, done, threw, Program, Sim, Act, bind, caught, read, call, noted,
}

module _ (program : Program) where
  abbrev State : Type 0
  State = Sim program.World

  abbrev pub After : {A : Type 0} → (State → Type 0) → (State → Type 0) → Ran A × State → Type 0
  After Q E (done a, s) = Q s
  After Q E (threw e, s) = E s

  abbrev pub Triple :
      {A : Type 0} → (State → Type 0) → Act program A → (State → Type 0) → (State → Type 0) → Type 0
  Triple P act Q E = (s : State) → P s → After Q E (act s)

  -- What holds before an act holds after it, a throw included.
  abbrev pub Keeps : {A : Type 0} → (State → Type 0) → Act program A → Type 0
  Keeps P act = Triple P act P P

  continued_lem :
      {A B : Type 0} (Q R E : State → Type 0) (r : Ran A × State) (k : A → Act program B)
      → After Q E r
      → ((a : A) → Triple Q (k a) R E)
      → After R E (bind program (λ s. r) k r.1)
  continued_lem Q R E (done a, s) k h t = t a s h
  continued_lem Q R E (threw e, s) k h t = h

  pub bind-Triple :
      {A B : Type 0} (P Q R E : State → Type 0) (f : Act program A) (k : A → Act program B)
      → Triple P f Q E
      → ((a : A) → Triple Q (k a) R E)
      → Triple P (bind program f k) R E
  bind-Triple P Q R E f k hf hk s h = continued_lem Q R E (f s) k (hf s h) hk

  handled_lem :
      {A : Type 0} (Q E F : State → Type 0) (r : Ran A × State) (k : String → Act program A)
      → After Q E r
      → ((e : String) → Triple E (k e) Q F)
      → After Q F (caught program (λ s. r) k r.1)
  handled_lem Q E F (done a, s) k h t = h
  handled_lem Q E F (threw e, s) k h t = t e s h

  pub caught-Triple :
      {A : Type 0} (P Q E F : State → Type 0) (f : Act program A) (k : String → Act program A)
      → Triple P f Q E
      → ((e : String) → Triple E (k e) Q F)
      → Triple P (caught program f k) Q F
  caught-Triple P Q E F f k hf hk s h = handled_lem Q E F (f s) k (hf s h) hk

  After-same : {A : Type 0} (P : State → Type 0) (r : Ran A) (s : State) → P s → After P P (r, s)
  After-same P (done a) s h = h
  After-same P (threw e) s h = h

  pub read-Keeps :
      {A : Type 0} (P : State → Type 0) (f : program.World → Ran A) → Keeps P (read program f)
  read-Keeps P f s h = After-same P (f s.world) s h

  pub if-Triple :
      {A : Type 0} (P Q E : State → Type 0) (b : Bool) (f g : Act program A)
      → Triple P f Q E
      → Triple P g Q E
      → Triple P (if b then f else g) Q E
  if-Triple P Q E true f g hf hg = hf
  if-Triple P Q E false f g hf hg = hg

  noted_lem :
      (Q E : State → Type 0) (i : Instruction) (s : State) (r : program.World × Option String)
      → ((w : program.World) → Q (record s { world = w; confirmed = i ∷ s.confirmed }))
      → ((w : program.World) → E (record s { world = w }))
      → After Q E (noted program i r s)
  noted_lem Q E i s (w, none) hq he = hq w
  noted_lem Q E i s (w, some e) hq he = he w

  pub call-Triple :
      (P Q E : State → Type 0) (i : Instruction)
      → ((s : State) (w : program.World)
          → P s
          → Q (record s { world = w; confirmed = i ∷ s.confirmed }))
      → ((s : State) (w : program.World) → P s → E (record s { world = w }))
      → Triple P (call program i) Q E
  call-Triple P Q E i hq he s h =
      noted_lem Q E i s (program.send i s.world) (λ w. hq s w h) (λ w. he s w h)
