-- ===== src/Auth/Recovery.antt =====
-- A recovery code is spent once: what `consume_recovery_code` leaves of the stored hashes.
use caddybuddy.Auth.Otp.{
  is_recovery_code, consume_recovery_code, other, Item, stored_items, is_recovery_hash, keep_hashes,
  remove_hash, stored_hashes, string, Library,
}
use caddybuddy.Text.{is_space, text_eq_iff, text_eq, Text}
use caddybuddy.Text.Strip.{strip_by}
use caddybuddy.Prelude.{
  ℕ, ◌+◌, ◌≡◌, refl, ap, ◌∙◌, inl, inr, Bool, true, false, ◌&&◌, Option, some, List, [], ◌∷◌, map,
  arith, ltb, if◌then◌else◌, Bool-cases, is_nil, all,
}

-- How often a hash is stored.
abbrev pub count : Text → List Text → ℕ
count h [] = 0
count h (x ∷ xs) = (if text_eq h x then 1 else 0) + count h xs

-- Decoding gives back an encoded array of strings, and an encoded array is no empty text.
abbrev pub RoundTrips : Library → Type 0
RoundTrips lib =
    (xs : List Text)
    → (lib.loads (lib.dumps xs) ≡ some (map string xs)) × (is_nil (lib.dumps xs) ≡ false)

keep_hashes-IsHash :
    (lib : Library) (items : List Item) → all is_recovery_hash (keep_hashes lib items) ≡ true
unfolding keep_hashes all
keep_hashes-IsHash lib [] = refl
keep_hashes-IsHash lib (other ∷ items) = keep_hashes-IsHash lib items
keep_hashes-IsHash lib (string s ∷ items) = ground (arith, keep_hashes-IsHash lib items)

stored_hashes-IsHash :
    (lib : Library) (stored : Option Text) → all is_recovery_hash (stored_hashes lib stored) ≡ true
unfolding stored_hashes
stored_hashes-IsHash lib stored = keep_hashes-IsHash lib (stored_items lib stored)

keep_hashes-map :
    (lib : Library) (xs : List Text)
    → all is_recovery_hash xs ≡ true
    → keep_hashes lib (map string xs) ≡ xs
unfolding keep_hashes all
keep_hashes-map lib [] h = refl
keep_hashes-map lib (x ∷ xs) h = ground (arith, keep_hashes-map lib xs)

stored_hashes-some :
    (lib : Library) (s : Text) (items : List Item)
    → is_nil s ≡ false
    → lib.loads s ≡ some items
    → stored_hashes lib (some s) ≡ keep_hashes lib items
unfolding stored_hashes stored_items
stored_hashes-some lib [] items h e = ground arith
stored_hashes-some lib (c ∷ s) items h e = ground arith

stored_hashes-dumps :
    (lib : Library) (xs : List Text)
    → RoundTrips lib
    → all is_recovery_hash xs ≡ true
    → stored_hashes lib (some (lib.dumps xs)) ≡ xs
stored_hashes-dumps lib xs rt h =
    stored_hashes-some lib (lib.dumps xs) (map string xs) (rt xs).1 (rt xs).0
    ∙ keep_hashes-map lib xs h

remove_hash-all :
    (p : Text → Bool) (c : Text) (xs : List Text)
    → all p xs ≡ true
    → all p (remove_hash c xs).1 ≡ true
unfolding remove_hash all
remove_hash-all p c [] h = refl
remove_hash-all p c (x ∷ xs) h = ground (arith, remove_hash-all p c xs)

-- The loop finds a stored hash, and removes one of it.
remove_hash-count :
    (c : Text) (xs : List Text) (h : Text)
    → (count h (remove_hash c xs).1 + (if (remove_hash c xs).0 && text_eq h c then 1 else 0)
        ≡ count h xs)
      × ((remove_hash c xs).0 ≡ ltb 0 (count c xs))
unfolding remove_hash
remove_hash-count c [] h = ground arith
remove_hash-count c (x ∷ xs) h =
    let later = remove_hash-count c xs h in
    elim (Bool-cases (text_eq c x)) [
      | inl equal ↦ ground (arith, ap (text_eq h) ((text_eq_iff c x).0 equal))
      | inr differs ↦ ground (arith, later)
    ]

-- `consume_recovery_code` accepts a candidate exactly when its stripped, lower-case form has the shape
-- of a recovery code and the hash of that form is stored; where JSON decodes what it encodes, the list
-- it returns holds every hash as often as the stored one, but one less of the spent hash.
pub consume_recovery_code-count :
    (lib : Library) (candidate : Text) (stored : Option Text) (h : Text)
    → RoundTrips lib
    → let answer = consume_recovery_code lib candidate stored in
      let normalized = lib.lower (strip_by is_space candidate) in
      let hash = lib.recovery_hash normalized in
      (answer.0 ≡ (is_recovery_code normalized && ltb 0 (count hash (stored_hashes lib stored))))
      × (count h (stored_hashes lib (some answer.1)) + (if answer.0 && text_eq h hash then 1 else 0)
          ≡ count h (stored_hashes lib stored))
unfolding consume_recovery_code
consume_recovery_code-count lib candidate stored h rt =
    let hashes = stored_hashes lib stored in
    let normalized = lib.lower (strip_by is_space candidate) in
    let hash = lib.recovery_hash normalized in
    let removed = remove_hash hash hashes in
    let valid = stored_hashes-IsHash lib stored in
    let counts = remove_hash-count hash hashes h in
    elim (Bool-cases (is_recovery_code normalized)) [
      | inl shaped ↦ ground (
        arith,
        counts,
        stored_hashes-dumps lib removed.1 rt (remove_hash-all is_recovery_hash hash hashes valid),
      )
      | inr odd ↦ ground (arith, stored_hashes-dumps lib hashes rt valid)
    ]
