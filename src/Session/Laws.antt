-- ===== src/Session/Laws.antt =====
-- The descriptors that session.c finds.
use progetto_sistemi_operati.Base.{
  ℕ, ◌+◌, ◌≡◌, refl, ap, ◌≢◌, inl, inr, List, [], ◌∷◌, ◌++◌, true, false, Option, none, some,
  str_eq_sound, str_eq_refl, All, length, arith, Bool-cases,
}
use progetto_sistemi_operati.Session.{
  Session, holds_path, find_opened, is_file_opened, find_free, get_free_file_descriptor,
}

abbrev pub Slots : Type 0
Slots = List (Option (List ℕ))

pub holds_path-true : (p : List ℕ) (o : Option (List ℕ)) → holds_path p o ≡ true → o ≡ some p
holds_path-true p none h = cc
holds_path-true p (some q) h = ap some (str_eq_sound q p h)

pub holds_path-false : (p : List ℕ) (o : Option (List ℕ)) → holds_path p o ≡ false → o ≢ some p
holds_path-false p none h e = cc
holds_path-false p (some q) h e = cc (str_eq_refl p)

-- The first slot with a property, at distance `d` from index `i`; without it, no slot has it.
abbrev pub First : (Option (List ℕ) → Type 0) → Slots → ℕ → Option ℕ → Type 0
First P os i none = All (λ o. ¬ P o) os
First P os i (some d) =
    (before : Slots) × (o : Option (List ℕ)) × (after : Slots) × (os ≡ before ++ o ∷ after)
    × P o
    × All (λ a. ¬ P a) before
    × (d ≡ i + length before)

First-here :
    (P : Option (List ℕ) → Type 0) (o : Option (List ℕ)) (os : Slots) (i : ℕ)
    → P o
    → First P (o ∷ os) i (some i)
First-here P o os i h = ([], o, os, refl, h, tt, omega arith)

First-later :
    (P : Option (List ℕ) → Type 0) (o : Option (List ℕ)) (os : Slots) (i : ℕ) (r : Option ℕ)
    → ¬ P o
    → First P os (i + 1) r
    → First P (o ∷ os) i r
First-later P o os i none h f = (h, f)
First-later P o os i (some d) h (before, a, after, e, p, none_before, n) =
    (o ∷ before, a, after, ap (λ r. o ∷ r) e, p, (h, none_before), omega arith)

find_opened_lem :
    (p : List ℕ) (os : Slots) (i : ℕ) → First (λ o. o ≡ some p) os i (find_opened p os i)
unfolding find_opened
find_opened_lem p [] i = tt
find_opened_lem p (o ∷ os) i = elim (Bool-cases (holds_path p o)) [
  | inl h ↦ rw h (First-here (λ a. a ≡ some p) o os i (holds_path-true p o h))
  | inr h ↦ rw h (
      First-later (λ a. a ≡ some p) o os i (find_opened p os (i + 1)) (holds_path-false p o h)
        (find_opened_lem p os (i + 1)))
]

-- isFileOpened gives the first descriptor that holds the path, and -1 only if none holds it.
pub is_file_opened_lem :
    (s : Session) (p : List ℕ) → First (λ o. o ≡ some p) s.opened_files 0 (is_file_opened s p)
unfolding is_file_opened
is_file_opened_lem s p = find_opened_lem p s.opened_files 0

find_free_lem : (os : Slots) (i : ℕ) → First (λ o. o ≡ none) os i (find_free os i)
unfolding find_free
find_free_lem [] i = tt
find_free_lem (none ∷ os) i = First-here (λ a. a ≡ none) none os i refl
find_free_lem (some p ∷ os) i =
    First-later (λ a. a ≡ none) (some p) os i (find_free os (i + 1)) (λ e. cc)
      (find_free_lem os (i + 1))

-- getFreeFileDescriptor gives the first null descriptor, and -1 only if none is null.
pub get_free_file_descriptor_lem :
    (s : Session) → First (λ o. o ≡ none) s.opened_files 0 (get_free_file_descriptor s)
unfolding get_free_file_descriptor
get_free_file_descriptor_lem s = find_free_lem s.opened_files 0
