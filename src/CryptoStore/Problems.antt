-- ===== src/CryptoStore/Problems.antt =====
-- The problems of a device's sessions in memory-crypto-store.js, as they are stored and read.
use mathlib.Core.List.{append_assoc, append-nil}
use matrix_js_sdk.Base.{
  ℕ, ◌≤◌, String, ◌≡◌, refl, sym, ◌∙◌, Bool, none, some, List, [], ◌∷◌, ◌++◌, arith, if◌then◌else◌,
  All, All-append,
}
use matrix_js_sdk.Base.Dict.{get_or, get_or-put_self}
use matrix_js_sdk.CryptoStore.Sessions.{
  Problem, Store, insert_problem, sort_onto, store_end_to_end_session_problem, last_problem,
  first_after, problem_of, get_end_to_end_session_problem,
}

-- in the order of their times
abbrev pub IsOrdered : List Problem → Type 0
IsOrdered [] = Unit
IsOrdered (p ∷ ps) = All (λ q. p.time ≤ q.time) ps × IsOrdered ps

-- none is later
abbrev pub IsBy : ℕ → List Problem → Type 0
IsBy now = All (λ q. q.time ≤ now)

insert_problem-end :
    (p : Problem) (qs : List Problem) → IsBy p.time qs → insert_problem p qs ≡ qs ++ p ∷ []
unfolding insert_problem
insert_problem-end p [] h = refl
insert_problem-end p (q ∷ qs) h = ground (arith, insert_problem-end p qs)

IsBy-of_IsOrdered : (xs ys : List Problem) (p : Problem) → IsOrdered (xs ++ p ∷ ys) → IsBy p.time xs
IsBy-of_IsOrdered [] ys p o = tt
IsBy-of_IsOrdered (x ∷ xs) ys p o = (first xs o.0, IsBy-of_IsOrdered xs ys p o.1)
  where
    first : (zs : List Problem) → All (λ q. x.time ≤ q.time) (zs ++ p ∷ ys) → x.time ≤ p.time
    first [] a = a.0
    first (z ∷ zs) a = first zs a.1

sort_onto-IsOrdered : (xs ys : List Problem) → IsOrdered (xs ++ ys) → sort_onto xs ys ≡ xs ++ ys
unfolding sort_onto
sort_onto-IsOrdered xs [] o = sym (append-nil xs)
sort_onto-IsOrdered xs (y ∷ ys) o =
    let same = append_assoc xs (y ∷ []) ys in
    rw (insert_problem-end y xs (IsBy-of_IsOrdered xs ys y o))
      (sort_onto-IsOrdered (xs ++ y ∷ []) ys (rw same o) ∙ same)

IsOrdered-append :
    (xs : List Problem) (p : Problem) → IsOrdered xs → IsBy p.time xs → IsOrdered (xs ++ p ∷ [])
IsOrdered-append [] p o h = (tt, tt)
IsOrdered-append (x ∷ xs) p o h =
    (All-append (λ q. x.time ≤ q.time) xs (p ∷ []) o.0 (h.0, tt), IsOrdered-append xs p o.1 h.1)

first_after-IsBy :
    (timestamp : ℕ) (ps : List Problem) → IsBy timestamp ps → first_after timestamp ps ≡ none
unfolding first_after
first_after-IsBy timestamp [] h = refl
first_after-IsBy timestamp (p ∷ ps) h = ground (arith, first_after-IsBy timestamp ps)

last_problem-append : (p q : Problem) (ps : List Problem) → last_problem p (ps ++ q ∷ []) ≡ q
last_problem-append p q [] = refl
last_problem-append p q (x ∷ ps) = last_problem-append x q ps

problem_of-append :
    (timestamp : ℕ) (ps : List Problem) (q : Problem)
    → IsBy timestamp (ps ++ q ∷ [])
    → problem_of timestamp (ps ++ q ∷ []) ≡ (if q.fixed then none else some q)
unfolding problem_of
problem_of-append timestamp [] q h = rw (first_after-IsBy timestamp (q ∷ []) h, problem_of) refl
problem_of-append timestamp (p ∷ ps) q h =
    rw (first_after-IsBy timestamp (p ∷ (ps ++ q ∷ [])) h, last_problem-append p q ps, problem_of)
      refl

IsBy-le : (now later : ℕ) (ps : List Problem) → now ≤ later → IsBy now ps → IsBy later ps
IsBy-le now later [] l h = tt
IsBy-le now later (p ∷ ps) l h = (omega (arith, h.0), IsBy-le now later ps l h.1)

abbrev pub problems_of : String → Store → List Problem
problems_of device_key s = get_or device_key s.session_problems []

-- the problem that is stored
abbrev pub problem_at : ℕ → String → Bool → Problem
problem_at now type fixed = record { type = type; fixed = fixed; time = now }

-- Where the problems of a device are in the order of their times and none is later than now, a
-- problem that is stored now goes behind them.
pub store_end_to_end_session_problem-append :
    (now : ℕ) (device_key type : String) (fixed : Bool) (s : Store)
    → IsOrdered (problems_of device_key s)
    → IsBy now (problems_of device_key s)
    → problems_of device_key (store_end_to_end_session_problem now device_key type fixed s)
      ≡ problems_of device_key s ++ problem_at now type fixed ∷ []
unfolding store_end_to_end_session_problem
store_end_to_end_session_problem-append now device_key type fixed s o h =
    let ps = problems_of device_key s in
    let p = problem_at now type fixed in
    let done = sort_onto-IsOrdered [] (ps ++ p ∷ []) (IsOrdered-append ps p o h) in
    get_or-put_self device_key (sort_onto [] (ps ++ p ∷ [])) [] s.session_problems ∙ done

-- Where the problems of a device are in the order of their times and none is later than now, and a
-- problem is stored now, the problem reported for this time or a later one is that problem, or none
-- if it is stored as fixed.
pub get_end_to_end_session_problem-store :
    (now timestamp : ℕ) (device_key type : String) (fixed : Bool) (s : Store)
    → IsOrdered (problems_of device_key s)
    → IsBy now (problems_of device_key s)
    → now ≤ timestamp
    → get_end_to_end_session_problem device_key timestamp
        (store_end_to_end_session_problem now device_key type fixed s)
      ≡ (if fixed then none else some (problem_at now type fixed))
unfolding get_end_to_end_session_problem
get_end_to_end_session_problem-store now timestamp device_key type fixed s o h l =
    let ps = problems_of device_key s in
    let p = problem_at now type fixed in
    rw (store_end_to_end_session_problem-append now device_key type fixed s o h) (
      problem_of-append timestamp ps p
        (All-append (λ q. q.time ≤ timestamp) ps (p ∷ []) (IsBy-le now timestamp ps l h) (l, tt)))
