-- ===== src/Indexer/Backfill/Pages.antt =====
-- The paging loop collects the whole history, newest first.
use router_pulse_depin_proto.Common.{
  ℕ, zero, suc, ◌<◌, String, true, false, Option, none, some, List, [], ◌∷◌, ◌++◌, ◌≡◌, ◌≢◌, refl,
  ap, sym, ◌∙◌, arith, All, length, take, drop, length-take, length-drop, take-append-drop, ltb,
  str_eq, str_eq_iff, if◌then◌else◌, Bool-cases, inl, inr, take_all, some_inj, ◌⊎◌,
}
use mathlib.Core.Path.{subst}
use mathlib.Core.List.{append_assoc, append-nil}
use router_pulse_depin_proto.Indexer.Retry.{Retried, returned, thrown, undefined_error}
use router_pulse_depin_proto.Indexer.Backfill.{
  Collected, collected, last, next_page, received, collect,
}

-- What is older than a signature, in a history with the newest first.
abbrev pub older : String → List String → List String
older s [] = []
older s (x ∷ xs) = let rest = older s xs in if str_eq x s then xs else rest

abbrev pub IsDistinct : List String → Type 0
IsDistinct [] = Unit
IsDistinct (x ∷ xs) = All (λ y. y ≢ x) xs × IsDistinct xs

abbrev pub answer {ℓ} : {A : Type ℓ} → Retried A → Option A
answer (returned a ds) = some a
answer (thrown e ds) = none
answer undefined_error = none

-- `getSignaturesForAddress`, as documented: at most `limit` signatures, newest first, from the
-- newest one or from what is older than `before`.
pub record Serves (rpc : Option String → ℕ → Retried (List String)) (limit : ℕ)
    (history : List String) : Type 0 where
  pub newest : answer (rpc none limit) ≡ some (take limit history)
  pub before : (s : String) → answer (rpc (some s) limit) ≡ some (take limit (older s history))

All-middle : (p q : List String) (x : String) (y : String) → All (λ z. z ≢ y) (p ++ x ∷ q) → x ≢ y
All-middle [] q x y (h, hs) = h
All-middle (z ∷ p) q x y (h, hs) = All-middle p q x y hs

-- In a history without repetition, what is older than a member is what follows it.
older-middle : (p q : List String) (x : String) → IsDistinct (p ++ x ∷ q) → older x (p ++ x ∷ q) ≡ q
older-middle [] q x h = rw ((str_eq_iff x x).1 refl)
older-middle (y ∷ p) q x (h, hs) = elim (Bool-cases (str_eq y x)) [
  | inl same ↦ absurd (All-middle p q x y h (sym ((str_eq_iff y x).0 same)))
  | inr other ↦ rw other (older-middle p q x hs)
]

-- After a page that ends in its last signature, the next page begins where it stopped.
older-page :
    (p xs q : List String) (x : String)
    → IsDistinct (p ++ x ∷ (xs ++ q))
    → older (last x xs) (p ++ x ∷ (xs ++ q)) ≡ q
older-page p [] q x h = older-middle p q x h
older-page p (y ∷ ys) q x h =
    let grouped : p ++ x ∷ (y ∷ (ys ++ q)) ≡ (p ++ x ∷ []) ++ y ∷ (ys ++ q) =
      sym (append_assoc p (x ∷ []) (y ∷ (ys ++ q))) in
    subst (λ (l : List String). older (last y ys) l ≡ q) (sym grouped)
      (older-page (p ++ x ∷ []) ys q y (subst IsDistinct grouped h))

received-answer :
    (r : Retried (List String)) (page : List String) (k : List String → Collected)
    → answer r ≡ some page
    → received (λ (b : Option String) (n : ℕ). r) 0 r k ≡ k page
received-answer (returned page' ds) page k e = ap k (some_inj e)
received-answer (thrown m ds) page k e = cc
received-answer undefined_error page k e = cc

module _ (rpc : Option String → ℕ → Retried (List String)) (k : ℕ) (history : List String)
    (served : Serves rpc (suc k) history) (distinct : IsDistinct history) where
  next :
      (all rest : List String) (x : String)
      → history ≡ all ++ x ∷ rest
      → answer (rpc (some (last x (take k rest))) (suc k)) ≡ some (take (suc k) (drop k rest))
  next all rest x e =
      let split : history ≡ all ++ x ∷ (take k rest ++ drop k rest) =
        e ∙ ap (λ (l : List String). all ++ x ∷ l) (sym (take-append-drop k rest)) in
      served.before (last x (take k rest))
      ∙ ap (λ (l : List String). some (take (suc k) l))
          (subst (λ (l : List String). older (last x (take k rest)) l ≡ drop k rest) (sym split)
            (older-page all (take k rest) (drop k rest) x (subst IsDistinct split distinct)))

  collect_all :
      (fuel : ℕ) (before : Option String) (all rest : List String)
      → history ≡ all ++ rest
      → answer (rpc before (suc k)) ≡ some (take (suc k) rest)
      → length rest < fuel
      → collect rpc (suc k) fuel before all ≡ collected history
  unfolding collect
  collect_all zero before all rest e a lt = absurd (omega arith)
  collect_all (suc fuel) before all [] e a lt =
      received-answer (rpc before (suc k)) [] _ a ∙ ap collected (sym (e ∙ append-nil all))
  collect_all (suc fuel) before all (x ∷ rest) e a lt =
      received-answer (rpc before (suc k)) (x ∷ take k rest) _ a
      ∙ turn (Bool-cases (ltb (length (x ∷ take k rest)) (suc k))) (
          collect_all fuel (some (last x (take k rest))) (all ++ x ∷ take k rest) (drop k rest)
            (e
              ∙ ap (λ (l : List String). all ++ x ∷ l) (sym (take-append-drop k rest))
              ∙ sym (append_assoc all (x ∷ take k rest) (drop k rest)))
            (next all rest x e) (omega (arith, length-drop k rest)))
    where
      page : List String
      page = x ∷ take k rest

      turn :
          (ltb (length page) (suc k) ≡ true) ⊎ (ltb (length page) (suc k) ≡ false)
          → collect rpc (suc k) fuel (some (last x (take k rest))) (all ++ page) ≡ collected history
          → next_page rpc (suc k) all page (λ b. collect rpc (suc k) fuel b (all ++ page))
            ≡ collected history
      turn (inl short) ih =
          let whole : take k rest ≡ rest =
            take_all k rest (ground (arith, length-take k rest, short)) in
          rw short (ap collected (ap (λ (l : List String). all ++ x ∷ l) whole ∙ sym e))
      turn (inr full) ih = rw full ih

-- With a page size above 0 and an RPC that serves a history without repetition, the paging loop
-- ends after at most one turn more than there are signatures, with the whole history.
pub collect_history :
    (rpc : Option String → ℕ → Retried (List String)) (page_size fuel : ℕ) (history : List String)
    → 0 < page_size
    → Serves rpc page_size history
    → IsDistinct history
    → length history < fuel
    → collect rpc page_size fuel none [] ≡ collected history
collect_history rpc zero fuel history h served distinct lt = elim h [ ]
collect_history rpc (suc k) fuel history h served distinct lt =
    collect_all rpc k history served distinct fuel none [] history refl served.newest lt
