-- ===== src/Filter/Meaning.antt =====
-- What `FilterComponent.check` of filter-component.js decides.
use matrix_js_sdk.Base.{
  ℕ, ◌≡◌, ◌≢◌, refl, ap, ◌∙◌, ◌↔◌, ◌⊎◌, inl, inr, Bool, true, false, Option, none, some, List, [],
  ◌∷◌, ◌++◌, arith, any, All, Bool-cases,
}
use matrix_js_sdk.Filter.Component.{
  Text, text_eq, star, ends_with_star, drop_last, starts_with, matches_wildcard, FilterComponent,
  Event, passes, check_fields, has_url, check,
}

pub text_eq_iff : (s t : Text) → (text_eq s t ≡ true) ↔ (s ≡ t)
unfolding text_eq
text_eq_iff [] [] = (λ h. refl, λ h. refl)
text_eq_iff [] (b ∷ t) = (λ h. cc, λ h. cc)
text_eq_iff (a ∷ s) [] = (λ h. cc, λ h. cc)
text_eq_iff (a ∷ s) (b ∷ t) = ground (arith, text_eq_iff s t)

starts_with_iff : (s p : Text) → (starts_with s p ≡ true) ↔ ((rest : Text) × (s ≡ p ++ rest))
unfolding starts_with
starts_with_iff s [] = (λ h. (s, refl), λ h. refl)
starts_with_iff [] (c ∷ p) = (λ h. cc, λ h. cc (h.1))
starts_with_iff (d ∷ s) (c ∷ p) = (
  λ h. let (rest, e) = (starts_with_iff s p).0 (ground arith) in (rest, ground (arith, e)),
  λ h. ground (arith, h.1, λ (e : s ≡ p ++ h.0). (starts_with_iff s p).1 (h.0, e)),
)

ends_with_star-append : (p : Text) → ends_with_star (p ++ star ∷ []) ≡ true
unfolding ends_with_star
ends_with_star-append [] = refl
ends_with_star-append (c ∷ []) = refl
ends_with_star-append (c ∷ d ∷ p) = ends_with_star-append (d ∷ p)

drop_last-append : (p : Text) (c : ℕ) → drop_last (p ++ c ∷ []) ≡ p
unfolding drop_last
drop_last-append [] c = refl
drop_last-append (a ∷ []) c = refl
drop_last-append (a ∷ b ∷ p) c = ap (λ r. a ∷ r) (drop_last-append (b ∷ p) c)

split_star : (v : Text) → ends_with_star v ≡ true → v ≡ drop_last v ++ star ∷ []
unfolding ends_with_star drop_last
split_star [] h = cc
split_star (c ∷ []) h = ground arith
split_star (c ∷ d ∷ v) h = ap (λ r. c ∷ r) (split_star (d ∷ v) h)

-- A pattern that ends in a star matches what starts with the rest of it, any other only itself.
abbrev pub Matches : Text → Text → Type 0
Matches actual v =
    ((p : Text) × (rest : Text) × (v ≡ p ++ star ∷ []) × (actual ≡ p ++ rest))
    ⊎ (((p : Text) → v ≢ p ++ star ∷ []) × (actual ≡ v))

matches_wildcard_iff : (actual v : Text) → (matches_wildcard actual v ≡ true) ↔ Matches actual v
unfolding matches_wildcard
matches_wildcard_iff actual v = elim (Bool-cases (ends_with_star v)) [
  | inl e ↦ (
    λ h.
        let (rest, q) = (starts_with_iff actual (drop_last v)).0 (rw (e, matches_wildcard) at h) in
        inl (drop_last v, rest, split_star v e, q),
    λ m. elim m [
      | inl (p, rest, a, b) ↦
          rw (e, matches_wildcard)
            ((starts_with_iff actual (drop_last v)).1
              (rest, rw (ap drop_last a ∙ drop_last-append p star) b))
      | inr (no_star, b) ↦ absurd (no_star (drop_last v) (split_star v e))
    ],
  )
  | inr e ↦ (
    λ h. inr (
      λ p q. cc (e, ap ends_with_star q, ends_with_star-append p),
      (text_eq_iff actual v).0 (rw (e, matches_wildcard) at h),
    ),
    λ m. elim m [
      | inl (p, rest, a, b) ↦ cc (e, ap ends_with_star a, ends_with_star-append p)
      | inr (no_star, b) ↦ rw (e, matches_wildcard) ((text_eq_iff actual v).1 b)
    ],
  )
]

abbrev pub Any : (Text → Type 0) → List Text → Type 0
Any P [] = ⊥
Any P (v ∷ vs) = P v ⊎ Any P vs

-- no value of the first list, and one of the second unless it is missing or empty
abbrev pub Admits : (Text → Type 0) → List Text → Option (List Text) → Type 0
Admits P denied none = All (λ v. ¬ P v) denied
Admits P denied (some []) = All (λ v. ¬ P v) denied
Admits P denied (some (v ∷ vs)) = All (λ v. ¬ P v) denied × Any P (v ∷ vs)

module _ (P : Text → Type 0) (test : Text → Bool) (iff : (v : Text) → (test v ≡ true) ↔ P v) where
  any_iff : (vs : List Text) → (any test vs ≡ true) ↔ Any P vs
  any_iff [] = (λ h. cc, λ h. absurd h)
  any_iff (v ∷ vs) = elim (Bool-cases (test v)) [
    | inl e ↦ (λ h. inl ((iff v).0 e), λ h. rw e refl)
    | inr e ↦ (
      λ h. inr ((any_iff vs).0 (rw e at h)),
      λ h. elim h [ inl p ↦ cc (e, (iff v).1 p) | inr q ↦ rw e ((any_iff vs).1 q) ],
    )
  ]

  any-false_iff : (vs : List Text) → (any test vs ≡ false) ↔ All (λ v. ¬ P v) vs
  any-false_iff [] = (λ h. tt, λ h. refl)
  any-false_iff (v ∷ vs) = elim (Bool-cases (test v)) [
    | inl e ↦ (λ h. cc (rw e at h), λ h. absurd (h.0 ((iff v).0 e)))
    | inr e ↦ (
      λ h. (λ p. cc (e, (iff v).1 p), (any-false_iff vs).0 (rw e at h)),
      λ h. rw e ((any-false_iff vs).1 h.1),
    )
  ]

  passes_iff :
      (denied : List Text) (allowed : Option (List Text))
      → (passes test denied allowed ≡ true) ↔ Admits P denied allowed
  unfolding passes
  passes_iff denied none =
      (λ h. (any-false_iff denied).0 (ground (arith, h)), λ h. rw ((any-false_iff denied).1 h) refl)
  passes_iff denied (some []) =
      (λ h. (any-false_iff denied).0 (ground (arith, h)), λ h. rw ((any-false_iff denied).1 h) refl)
  passes_iff denied (some (v ∷ vs)) = (
    λ h.
        let denial : any test denied ≡ false = ground (arith, h) in
        ((any-false_iff denied).0 denial, (any_iff (v ∷ vs)).0 (rw denial at h)),
    λ h. rw ((any-false_iff denied).1 h.0) ((any_iff (v ∷ vs)).1 h.1),
  )

-- What a filter component asks of an event.
pub record Accepts (f : FilterComponent) (e : Event) : Type 0 where
  pub rooms : Admits (λ v. e.room_id ≡ v) f.not_rooms f.rooms
  pub senders : Admits (λ v. e.sender ≡ v) f.not_senders f.senders
  pub types : Admits (Matches e.type) f.not_types f.types
  pub url : (f.contains_url ≡ none) ⊎ (f.contains_url ≡ some (has_url e.content))

-- `check` accepts an event exactly if none of the values of each `not_` list fits it, some value of
-- each list that is not empty does, with the stars of the types as wildcards, and the presence of a
-- URL is as demanded, if it is.
pub check_iff : (f : FilterComponent) (e : Event) → (check f e ≡ true) ↔ Accepts f e
unfolding check check_fields
check_iff f e =
    let rooms =
      passes_iff (λ v. e.room_id ≡ v) (text_eq e.room_id) (text_eq_iff e.room_id) f.not_rooms
        f.rooms in
    let senders =
      passes_iff (λ v. e.sender ≡ v) (text_eq e.sender) (text_eq_iff e.sender) f.not_senders
        f.senders in
    let types =
      passes_iff (Matches e.type) (matches_wildcard e.type) (matches_wildcard_iff e.type)
        f.not_types f.types in
    (
      λ h. record {
        rooms = rooms.0 (ground (arith, h));
        senders = senders.0 (ground (arith, h));
        types = types.0 (ground (arith, h));
        url = ground (arith, h);
      },
      λ a. ground (arith, rooms.1 a.rooms, senders.1 a.senders, types.1 a.types, a.url),
    )
