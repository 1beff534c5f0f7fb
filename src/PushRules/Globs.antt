-- ===== src/PushRules/Globs.antt =====
-- `escapeRegExp` and `globToRegexp` of utils.ts: the source text of a regular expression for a
-- glob. Globs with a line break are not modelled, since `.` of the third replacement stops there.
use matrix_js_sdk.Base.{
  ℕ, Bool, ◌&&◌, Option, none, some, [], ◌∷◌, ◌++◌, map, ◌==◌, if◌then◌else◌, any,
}
use matrix_js_sdk.PushRules.Texts.{Text, text}

abbrev backslash : ℕ
backslash = 92

abbrev pub is_special : ℕ → Bool
is_special c = any (λ d. c == d) (backslash ∷ text ".*+?^${}()|[]")

unfoldable pub escape_reg_exp : Text → Text
escape_reg_exp [] = []
escape_reg_exp (c ∷ s) =
    let rest = escape_reg_exp s in if is_special c then backslash ∷ c ∷ rest else c ∷ rest

-- `replace(/\\\*/g, '.*')`: an escaped star becomes `.*`
unfoldable pub replace_stars : Text → Text
replace_stars [] = []
replace_stars (c ∷ []) = c ∷ []
replace_stars (c ∷ d ∷ s) =
    let after = replace_stars s in
    let next = replace_stars (d ∷ s) in
    if c == backslash && d == b'*' then b'.' ∷ b'*' ∷ after else c ∷ next

-- `replace(/\?/g, '.')`
unfoldable pub replace_question_marks : Text → Text
replace_question_marks = map (λ c. if c == b'?' then b'.' else c)

-- what stands before the last `\]`
unfoldable pub before_last_close : Text → Option (Text × Text)
before_last_close [] = none
before_last_close (c ∷ []) = none
before_last_close (c ∷ d ∷ s) = elim (before_last_close (d ∷ s)) [
  | some (inner, rest) ↦ some (c ∷ inner, rest)
  | none ↦ if c == backslash && d == b']' then some ([], s) else none
]

-- `replace(/\\-/, '-')`, the first one only
unfoldable pub replace_dash : Text → Text
replace_dash [] = []
replace_dash (c ∷ []) = c ∷ []
replace_dash (c ∷ d ∷ s) =
    let next = replace_dash (d ∷ s) in if c == backslash && d == b'-' then b'-' ∷ s else c ∷ next

abbrev pub bracket : Text → Text
bracket [] = b'[' ∷ b']' ∷ []
bracket (c ∷ s) =
    if c == b'!'
    then b'[' ∷ b'^' ∷ (replace_dash s ++ b']' ∷ [])
    else b'[' ∷ (replace_dash (c ∷ s) ++ b']' ∷ [])

-- the replacement of a bracket: from the first `\[` to the last `\]` after it
unfoldable pub replace_brackets : Text → Text
unfolding before_last_close replace_dash
replace_brackets [] = []
replace_brackets (c ∷ []) = c ∷ []
replace_brackets (c ∷ d ∷ s) =
    let next = replace_brackets (d ∷ s) in
    if c == backslash && d == b'['
    then (elim (before_last_close s) [
      | none ↦ c ∷ d ∷ s
      | some (inner, rest) ↦ bracket inner ++ rest
    ])
    else c ∷ next

-- `globToRegexp(glob)`, with `extended` left out
unfoldable pub glob_to_regexp : Text → Text
unfolding escape_reg_exp replace_stars replace_question_marks replace_brackets
glob_to_regexp glob =
    replace_brackets (replace_question_marks (replace_stars (escape_reg_exp glob)))
