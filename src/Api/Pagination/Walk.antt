-- ===== src/Api/Pagination/Walk.antt =====
-- Following the cursors of a listing from its first page to its last.
use mathlib.Core.List.{append_assoc}
use mathlib.Core.Path.{subst}
use router_pulse_depin_proto.Common.{
  ℕ, zero, suc, ◌≤◌, ◌<◌, String, true, Option, none, some, List, [], ◌∷◌, ◌++◌, ◌≡◌, ◌≢◌, refl, ap,
  sym, ◌∙◌, arith, All, length, take, drop, ltb, str_eq, str_eq_iff, if◌then◌else◌, Bool-cases, inl,
  inr, take-append-drop, take-take, take_all, length-take, length-drop,
}
use router_pulse_depin_proto.Api.Pagination.{
  CursorCodec, decode_cursor, truthy, Listed, listed, type_error, page_of, last_row,
}

abbrev pub joined {ℓ} : {A : Type ℓ} → List A → Option (List A) → Option (List A)
joined xs none = none
joined xs (some ys) = some (xs ++ ys)

-- The rows of all pages, one after the other; no result is a walk that goes on, or an error.
module _ {A : Type 0} (list : Option String → Listed A) where
  abbrev pub walk_on : Listed A → (Option String → Option (List A)) → Option (List A)
  walk_on type_error k = none
  walk_on (listed p) k = elim p.next_cursor [
    | none ↦ some p.items
    | some c ↦ joined p.items (k (some c))
  ]

  unfoldable pub walk : ℕ → Option String → Option (List A)
  walk zero cursor = none
  walk (suc fuel) cursor = walk_on (list cursor) (walk fuel)

module _ {A : Type 0} (id : A → String) where
  -- What follows the row with a key.
  abbrev pub following : String → List A → List A
  following s [] = []
  following s (x ∷ xs) = let rest = following s xs in if str_eq (id x) s then xs else rest

  abbrev pub HasDistinctIds : List A → Type 0
  HasDistinctIds [] = Unit
  HasDistinctIds (x ∷ xs) = All (λ y. id y ≢ id x) xs × HasDistinctIds xs

  apart : (p q : List A) (x y : A) → All (λ z. id z ≢ id y) (p ++ x ∷ q) → id x ≢ id y
  apart [] q x y (h, hs) = h
  apart (z ∷ p) q x y (h, hs) = apart p q x y hs

  following-middle :
      (p q : List A) (x : A) → HasDistinctIds (p ++ x ∷ q) → following (id x) (p ++ x ∷ q) ≡ q
  following-middle [] q x h = rw ((str_eq_iff (id x) (id x)).1 refl)
  following-middle (y ∷ p) q x (h, hs) = elim (Bool-cases (str_eq (id y) (id x))) [
    | inl same ↦ absurd (apart p q x y h (sym ((str_eq_iff (id y) (id x)).0 same)))
    | inr other ↦ rw other (following-middle p q x hs)
  ]

  following-page :
      (p xs q : List A) (x : A)
      → HasDistinctIds (p ++ x ∷ (xs ++ q))
      → following (id (last_row x xs)) (p ++ x ∷ (xs ++ q)) ≡ q
  following-page p [] q x h = following-middle p q x h
  following-page p (y ∷ ys) q x h =
      let grouped : p ++ x ∷ (y ∷ (ys ++ q)) ≡ (p ++ x ∷ []) ++ y ∷ (ys ++ q) =
        sym (append_assoc p (x ∷ []) (y ∷ (ys ++ q))) in
      subst (λ (l : List A). following (id (last_row y ys)) l ≡ q) (sym grouped)
        (following-page (p ++ x ∷ []) ys q y (subst HasDistinctIds grouped h))

-- The cursor of a row comes back as the row's key.
abbrev pub Decodes : CursorCodec → {A : Type 0} → (A → String) → A → Type 0
Decodes codec id a = truthy codec (decode_cursor codec (some (codec.encode (id a)))) ≡ some (id a)

All-last_row :
    {A : Type 0} (P : A → Type 0) (p xs q : List A) (x : A)
    → All P (p ++ x ∷ (xs ++ q))
    → P (last_row x xs)
All-last_row P [] [] q x (h, hs) = h
All-last_row P [] (y ∷ ys) q x (h, hs) = All-last_row P [] ys q y hs
All-last_row P (z ∷ p) xs q x (h, hs) = All-last_row P p xs q x hs

module _ {A : Type 0} (codec : CursorCodec) (id : A → String) (find : Option String → ℕ → List A)
    (k : ℕ) (rows : List A) (coded : All (Decodes codec id) rows)
    (first : (n : ℕ) → find none n ≡ take n rows)
    (later : All (λ r. (n : ℕ) → find (some (id r)) n ≡ take n (following id (id r) rows)) rows)
    (distinct : HasDistinctIds id rows) where
  -- The store answers a bound at a row with what follows the row.
  abbrev Served : A → Type 0
  Served r = (n : ℕ) → find (some (id r)) n ≡ take n (following id (id r) rows)

  abbrev list_page : Option String → Listed A
  list_page cursor =
      page_of codec id (suc k) (find (truthy codec (decode_cursor codec cursor)) (suc (suc k)))

  page_short :
      (rest : List A)
      → length rest ≤ suc k
      → page_of codec id (suc k) (take (suc (suc k)) rest)
        ≡ listed (record { items = rest; next_cursor = none })
  unfolding page_of
  page_short rest h =
      let whole : take (suc (suc k)) rest ≡ rest = take_all (suc (suc k)) rest (omega arith) in
      rw whole (ground arith)

  page_full :
      (x : A) (rest : List A)
      → suc k < length (x ∷ rest)
      → page_of codec id (suc k) (take (suc (suc k)) (x ∷ rest))
        ≡ listed (record {
          items = x ∷ take k rest;
          next_cursor = some (codec.encode (id (last_row x (take k rest))));
        })
  unfolding page_of
  page_full x rest h =
      let many : ltb (suc k) (length (x ∷ take (suc k) rest)) ≡ true =
        ground (arith, length-take (suc k) rest) in
      rw (many, take-take k rest) refl

  next_cut :
      (pre rest : List A) (x : A) (n : ℕ)
      → rows ≡ pre ++ x ∷ rest
      → find
          (truthy codec (decode_cursor codec (some (codec.encode (id (last_row x (take k rest)))))))
          n
        ≡ take n (drop k rest)
  next_cut pre rest x n e =
      let split : rows ≡ pre ++ x ∷ (take k rest ++ drop k rest) =
        e ∙ ap (λ (l : List A). pre ++ x ∷ l) (sym (take-append-drop k rest)) in
      ap (λ (c : Option String). find c n)
        (All-last_row (Decodes codec id) pre (take k rest) (drop k rest) x
          (subst (All (Decodes codec id)) split coded))
      ∙ All-last_row Served pre (take k rest) (drop k rest) x (subst (All Served) split later) n
      ∙ ap (take n) (
          subst (λ (l : List A). following id (id (last_row x (take k rest))) l ≡ drop k rest)
            (sym split)
            (following-page id pre (take k rest) (drop k rest) x
              (subst (HasDistinctIds id) split distinct)))

  pub walk_all :
      (fuel : ℕ) (cursor : Option String) (pre rest : List A)
      → rows ≡ pre ++ rest
      → ((n : ℕ) → find (truthy codec (decode_cursor codec cursor)) n ≡ take n rest)
      → length rest < fuel
      → walk list_page fuel cursor ≡ some rest
  unfolding walk
  walk_all zero cursor pre rest e c lt = absurd (omega arith)
  walk_all (suc fuel) cursor pre [] e c lt = rw (c (suc (suc k)), page_short [] (omega arith)) refl
  walk_all (suc fuel) cursor pre (x ∷ rest) e c lt =
      let regroup : rows ≡ (pre ++ x ∷ take k rest) ++ drop k rest =
        e
        ∙ ap (λ (l : List A). pre ++ x ∷ l) (sym (take-append-drop k rest))
        ∙ sym (append_assoc pre (x ∷ take k rest) (drop k rest)) in
      let ih =
        walk_all fuel (some (codec.encode (id (last_row x (take k rest))))) (pre ++ x ∷ take k rest)
          (drop k rest) regroup (λ n. next_cut pre rest x n e)
          (omega (arith, length-drop k rest)) in
      elim (Bool-cases (ltb (suc k) (length (x ∷ rest)))) [
        | inl more ↦
            rw
              (
                c (suc (suc k)),
                page_full x rest (ground (arith, more)),
                ih,
                take-append-drop k rest,
              )
              refl
        | inr less ↦ rw (c (suc (suc k)), page_short (x ∷ rest) (ground (arith, less))) refl
      ]
