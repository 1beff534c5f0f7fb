-- ===== src/Sync/Pruning.antt =====
-- What the pruning and the export of a timeline in sync-accumulator.js leave.
use mathlib.Core.List.{append_assoc, append-nil}
use matrix_js_sdk.Base.{
  ℕ, zero, suc, ◌-◌, ◌≤◌, ◌<◌, String, ◌≡◌, refl, true, false, Option, none, some, List, [], ◌∷◌,
  ◌++◌, arith, ltb, ltb→lt, truthy, length, drop, take, length-drop, take-append-drop,
  length-append, Option-cases, Bool-cases, ◌⊎◌, ◌↔◌, inl, inr, ap, sym, ◌∙◌,
}
use matrix_js_sdk.Sync.Response.{Event}
use matrix_js_sdk.Sync.Timeline.{
  Entry, entries, from_token, prune, emit, has_token, StartsWithToken, events_of, HasTokenHead,
}

HasTokenHead-StartsWithToken : (xs : List Entry) → HasTokenHead xs → StartsWithToken xs
HasTokenHead-StartsWithToken [] h = absurd h
HasTokenHead-StartsWithToken (x ∷ xs) h = h

pub from_token_suffix :
    (xs ys : List Entry)
    → from_token xs ≡ some ys
    → (front : List Entry) × (xs ≡ front ++ ys) × HasTokenHead ys × (length ys ≤ length xs)
unfolding from_token
from_token_suffix [] ys h = cc
from_token_suffix (x ∷ xs) ys h = elim (Bool-cases (truthy x.token)) [
  | inl t ↦ ([], ground arith, let e : ys ≡ x ∷ xs = ground arith in rw e t, ground arith)
  | inr f ↦
      let (front, e, p, l) = from_token_suffix xs ys (rw f at h) in
      (x ∷ front, ap (λ r. x ∷ r) e, p, omega arith)
]

pub from_token-none : (xs : List Entry) → has_token xs ≡ false → from_token xs ≡ none
unfolding from_token
from_token-none [] h = refl
from_token-none (x ∷ xs) h = ground (arith, from_token-none xs)

pub from_token-ne-none :
    (xs : List Entry) → has_token xs ≡ true → (ys : List Entry) × (from_token xs ≡ some ys)
unfolding from_token
from_token-ne-none [] h = cc
from_token-ne-none (x ∷ xs) h = elim (Bool-cases (truthy x.token)) [
  | inl t ↦ (x ∷ xs, rw t)
  | inr f ↦ rw f (from_token-ne-none xs (rw f at h))
]

module _ {ℓ} {A : Type ℓ} where
  pub drop-append : (n : ℕ) (xs ys : List A) → n ≤ length xs → drop n (xs ++ ys) ≡ drop n xs ++ ys
  drop-append zero xs ys h = refl
  drop-append (suc n) [] ys h = absurd (omega arith)
  drop-append (suc n) (x ∷ xs) ys h = drop-append n xs ys (omega arith)

from_token_longest :
    (front rest : List Entry)
    → HasTokenHead rest
    → (ys : List Entry) × (from_token (front ++ rest) ≡ some ys) × (length rest ≤ length ys)
unfolding from_token
from_token_longest [] [] h = absurd h
from_token_longest [] (x ∷ xs) h = (x ∷ xs, rw h, omega arith)
from_token_longest (y ∷ front) rest h = elim (Bool-cases (truthy y.token)) [
  | inl t ↦ (y ∷ (front ++ rest), rw t, omega (arith, length-append front rest))
  | inr f ↦ rw f (from_token_longest front rest h)
]

module _ (max : ℕ) (timeline : List Entry) where
  prune-found :
      (ys : List Entry)
      → max < length timeline
      → from_token (drop (length timeline - max) timeline) ≡ some ys
      → prune max timeline ≡ ys
  unfolding prune
  prune-found ys over found = ground arith

  -- Where none of the last `max` entries has a token nothing is pruned.
  pub prune-no_token :
      has_token (drop (length timeline - max) timeline) ≡ false → prune max timeline ≡ timeline
  unfolding prune
  prune-no_token h = ground (arith, from_token-none (drop (length timeline - max) timeline) h)

  pub prune-within : length timeline ≤ max → prune max timeline ≡ timeline
  unfolding prune
  prune-within h = ground arith

  pub prune_suffix : (front : List Entry) × (timeline ≡ front ++ prune max timeline)
  prune_suffix = elim (Bool-cases (ltb max (length timeline))) [
    | inr f ↦ ([], rw (prune-within (ground arith)))
    | inl t ↦ elim (Option-cases (from_token (drop (length timeline - max) timeline))) [
      | inl e ↦ ([], unfold prune in ground arith)
      | inr (rest, e) ↦
          let (front, p, _, _) = from_token_suffix _ rest e in
          (
            take (length timeline - max) timeline ++ front,
            rw (prune-found rest (ltb→lt _ _ t) e) (
                sym (take-append-drop (length timeline - max) timeline)
                ∙ ap (λ r. take (length timeline - max) timeline ++ r) p
                ∙ sym (append_assoc _ front rest)),
          )
    ]
  ]

-- Where the timeline is over the limit and some entry with a token has at most `max` entries from it
-- on, pruning leaves a timeline that begins with a token, has at most `max` entries and is at least
-- as long as that rest: the longest that is allowed.
pub prune_longest :
    (max : ℕ) (front rest : List Entry)
    → max < length (front ++ rest)
    → HasTokenHead rest
    → length rest ≤ max
    → HasTokenHead (prune max (front ++ rest))
      × (length (prune max (front ++ rest)) ≤ max)
      × (length rest ≤ length (prune max (front ++ rest)))
prune_longest max front rest over h fits =
    let n : ℕ = length (front ++ rest) - max in
    let cut : drop n (front ++ rest) ≡ drop n front ++ rest =
      drop-append n front rest (omega (arith, length-append front rest)) in
    let (ys, found, longest) = from_token_longest (drop n front) rest h in
    let found' : from_token (drop n (front ++ rest)) ≡ some ys = rw cut found in
    let (_, _, head, short) = from_token_suffix (drop n (front ++ rest)) ys found' in
    rw (prune-found max (front ++ rest) ys over found')
      (head, omega (arith, length-drop n (front ++ rest)), longest)

-- Pruning leaves more than `max` entries exactly where there were more and none of the last `max`
-- has a token.
pub prune-exceeds_iff :
    (max : ℕ) (timeline : List Entry)
    → (max < length (prune max timeline))
      ↔ ((max < length timeline) × (has_token (drop (length timeline - max) timeline) ≡ false))
prune-exceeds_iff max timeline = (
  λ over. elim (Bool-cases (ltb max (length timeline))) [
    | inr f ↦
        let within = prune-within max timeline (ground arith) in
        let over' : max < length timeline = rw within at over in ground arith
    | inl t ↦ (
      ltb→lt _ _ t,
      elim (Bool-cases (has_token (drop (length timeline - max) timeline))) [
        | inr e ↦ e
        | inl e ↦
            let (rest, found) = from_token-ne-none _ e in
            let (front, p, h, short) = from_token_suffix _ rest found in
            let e' = prune-found max timeline rest (ltb→lt _ _ t) found in
            let over' : max < length rest = rw e' at over in
            absurd (
              omega
                (arith, length-drop (length timeline - max) timeline, short, over', ltb→lt _ _ t))
      ],
    )
  ],
  λ h. rw (prune-no_token max timeline h.1) h.0,
)

-- Pruning keeps the token at the head.
pub prune-StartsWithToken :
    (max : ℕ) (timeline : List Entry)
    → StartsWithToken timeline
    → StartsWithToken (prune max timeline)
prune-StartsWithToken max tl h = elim (Bool-cases (ltb max (length tl))) [
  | inr f ↦ rw (prune-within max tl (ground arith)) h
  | inl t ↦ elim (Option-cases (from_token (drop (length tl - max) tl))) [
    | inl e ↦ unfold prune in rw (t, e) h
    | inr (rest, e) ↦
        let (_, _, head, _) = from_token_suffix _ rest e in
        rw (prune-found max tl rest (ltb→lt _ _ t) e) (HasTokenHead-StartsWithToken rest head)
  ]
]

-- After a first entry with a token, `getJSON` emits every event.
emit-all :
    (token : Option String) (events : List Event) (xs : List Entry)
    → truthy token ≡ true
    → emit token events xs ≡ (token, events ++ events_of xs)
unfolding emit
emit-all token events [] h = ap (λ es. (token, es)) (sym (append-nil events))
emit-all token events (x ∷ xs) h = rw h (
    emit-all token (events ++ x.event ∷ []) xs h
    ∙ ap (λ es. (token, es)) (append_assoc events (x.event ∷ []) (events_of xs)))

pub emit-StartsWithToken :
    (xs : List Entry) → StartsWithToken xs → (emit none [] xs).1 ≡ events_of xs
unfolding emit
emit-StartsWithToken [] h = refl
emit-StartsWithToken (x ∷ xs) h =
    rw (h, emit) (ap (λ p. p.1) (emit-all x.token (x.event ∷ []) xs h))

pub events_of-entries :
    (token : Option String) (es : List Event) → events_of (entries token es) ≡ es
unfolding entries
events_of-entries token [] = refl
events_of-entries token (e ∷ es) = ap (λ r. e ∷ r) (events_of-entries none es)

pub events_of-append : (xs ys : List Entry) → events_of (xs ++ ys) ≡ events_of xs ++ events_of ys
events_of-append [] ys = refl
events_of-append (x ∷ xs) ys = ap (λ r. x.event ∷ r) (events_of-append xs ys)

pub StartsWithToken-append :
    (xs ys : List Entry) → StartsWithToken xs → StartsWithToken ys → StartsWithToken (xs ++ ys)
StartsWithToken-append [] ys hx hy = hy
StartsWithToken-append (x ∷ xs) ys hx hy = hx

pub StartsWithToken-entries :
    (token : Option String) (es : List Event)
    → (es ≡ []) ⊎ (truthy token ≡ true)
    → StartsWithToken (entries token es)
unfolding entries
StartsWithToken-entries token [] h = tt
StartsWithToken-entries token (e ∷ es) h = ground arith
