-- ===== src/Sync/Receipts.antt =====
-- Read receipts: `getJSON` of sync-accumulator.js groups them by event, and loading that content
-- gives each user its receipt back.
use matrix_js_sdk.Base.{
  String, ◌≡◌, refl, ◌∙◌, Bool, false, true, Option, none, some, List, [], ◌∷◌, map, arith, eq_iff,
  str_eq, str_eq_self, if◌then◌else◌,
}
use matrix_js_sdk.Base.Dict.{Dict, get, put, get-nil, get-put, get_or, IsUnique, put-IsUnique}
use matrix_js_sdk.Sync.Response.{Json, Ephemeral}
use matrix_js_sdk.Sync.StateMap.{or_else}
use matrix_js_sdk.Sync.Room.{Receipt, put_readers, put_receipt, put_receipt_event, put_ephemeral}
use matrix_js_sdk.Sync.Export.{group_receipts, receipt_events, export_receipts}

or_else-none {ℓ} : {A : Type ℓ} (o : Option A) → or_else o none ≡ o
or_else-none none = refl
or_else-none (some a) = refl

abbrev receipt_of : String → Option Json → Option Receipt
receipt_of e none = none
receipt_of e (some j) = some (record { content = j; event_id = e })

-- the receipt of a user in a grouped content, the last one if there are several
find_receipt : String → Dict (Dict Json) → Option Receipt
find_receipt u [] = none
find_receipt u ((e, users) ∷ rest) = or_else (find_receipt u rest) (receipt_of e (get u users))

abbrev AllUnique : Dict (Dict Json) → Type 0
AllUnique [] = Unit
AllUnique ((e, users) ∷ rest) = IsUnique users × AllUnique rest

get-put_readers :
    (u e : String) (users : Dict Json) (d : Dict Receipt)
    → IsUnique users
    → get u (put_readers e users d) ≡ or_else (receipt_of e (get u users)) (get u d)
unfolding put_readers get
get-put_readers u e [] d h = refl
get-put_readers u e ((w, j) ∷ users) d h = ground (
  arith,
  get-put_readers u e users (put w (record { content = j; event_id = e }) d) h.1,
  get-put w u (record { content = j; event_id = e }) d,
  eq_iff w u,
)

abbrev as_content : Dict (Dict Json) → Dict (Option (Dict Json))
as_content = map (λ p. (p.0, some p.1))

get-put_receipt :
    (u : String) (content : Dict (Dict Json)) (d : Dict Receipt)
    → AllUnique content
    → get u (put_receipt (as_content content) d) ≡ or_else (find_receipt u content) (get u d)
unfolding put_receipt find_receipt
get-put_receipt u [] d h = refl
get-put_receipt u ((e, users) ∷ rest) d h =
    ground
      (arith, get-put_receipt u rest (put_readers e users d) h.1, get-put_readers u e users d h.0)

-- A receipt of a user that has none yet.
find_receipt-put :
    (u w e : String) (j : Json) (users : Dict Json) (content : Dict (Dict Json))
    → find_receipt w content ≡ none
    → get_or e content [] ≡ users
    → find_receipt u (put e (put w j users) content)
      ≡ (if str_eq w u then some (record { content = j; event_id = e }) else find_receipt u content)
unfolding find_receipt put get
find_receipt-put u w e j users [] h q = ground (arith, get-put w u j users, get-nil {V = Json} u)
find_receipt-put u w e j users ((i, x) ∷ content) h q =
    ground
      (arith, find_receipt-put u w e j users content, get-put w u j users, eq_iff i e, eq_iff w u)

put-AllUnique :
    (e : String) (users : Dict Json) (content : Dict (Dict Json))
    → IsUnique users
    → AllUnique content
    → AllUnique (put e users content)
unfolding put
put-AllUnique e users [] u h = (u, tt)
put-AllUnique e users ((i, x) ∷ content) u h = ground (arith, put-AllUnique e users content)

get_or-IsUnique :
    (e : String) (content : Dict (Dict Json)) → AllUnique content → IsUnique (get_or e content [])
unfolding get
get_or-IsUnique e [] h = tt
get_or-IsUnique e ((i, x) ∷ content) h = ground (arith, get_or-IsUnique e content)

group_receipts-AllUnique :
    (content : Dict (Dict Json)) (rs : Dict Receipt)
    → AllUnique content
    → AllUnique (group_receipts content rs)
unfolding group_receipts
group_receipts-AllUnique content [] h = h
group_receipts-AllUnique content ((w, r) ∷ rs) h =
    let users = get_or r.event_id content [] in
    group_receipts-AllUnique (put r.event_id (put w r.content users) content) rs (
      put-AllUnique r.event_id (put w r.content users) content
        (put-IsUnique w r.content users (get_or-IsUnique r.event_id content h)) h)

find_receipt-group_receipts :
    (u : String) (content : Dict (Dict Json)) (rs : Dict Receipt)
    → IsUnique rs
    → ((w : String) (r : Receipt) → get w rs ≡ some r → find_receipt w content ≡ none)
    → find_receipt u (group_receipts content rs) ≡ or_else (get u rs) (find_receipt u content)
unfolding group_receipts get
find_receipt-group_receipts u content [] h fresh = refl
find_receipt-group_receipts u content ((w, r) ∷ rs) h fresh =
    let users = get_or r.event_id content [] in
    let next = put r.event_id (put w r.content users) content in
    let new : find_receipt w content ≡ none = fresh w r (ground (arith, str_eq_self w)) in
    find_receipt-group_receipts u next rs h.1 (λ v x q.
      let apart : str_eq w v ≡ false = ground (arith, eq_iff w v, h.0) in
      rw (find_receipt-put v w r.event_id r.content users content new refl, apart)
        (fresh v x (rw apart q)))
    ∙ ground
        (arith, find_receipt-put u w r.event_id r.content users content new refl, eq_iff w u, h.0)

get-put_receipt_events :
    (room u : String) (content : Dict (Dict Json))
    → AllUnique content
    → get u (put_ephemeral [] (receipt_events room content)) ≡ find_receipt u content
unfolding put_ephemeral put_receipt_event receipt_events get
get-put_receipt_events room u [] h = unfold find_receipt in refl
get-put_receipt_events room u (entry ∷ content) h =
    get-put_receipt u (entry ∷ content) [] h ∙ or_else-none (find_receipt u (entry ∷ content))

-- Loading the exported receipts gives every user its receipt.
pub get-put_ephemeral-export_receipts :
    (room u : String) (rs : Dict Receipt)
    → IsUnique rs
    → get u (put_ephemeral [] (export_receipts room rs)) ≡ get u rs
unfolding export_receipts
get-put_ephemeral-export_receipts room u rs h =
    get-put_receipt_events room u (group_receipts [] rs) (group_receipts-AllUnique [] rs tt)
    ∙ find_receipt-group_receipts u [] rs h (λ w r q. unfold find_receipt in refl)
    ∙ unfold find_receipt in or_else-none (get u rs)

put_readers-IsUnique :
    (e : String) (users : Dict Json) (d : Dict Receipt)
    → IsUnique d
    → IsUnique (put_readers e users d)
unfolding put_readers
put_readers-IsUnique e [] d h = h
put_readers-IsUnique e ((w, j) ∷ users) d h =
    let d' = put w (record { content = j; event_id = e }) d in
    put_readers-IsUnique e users d' (put-IsUnique w _ d h)

put_receipt-IsUnique :
    (content : Dict (Option (Dict Json))) (d : Dict Receipt)
    → IsUnique d
    → IsUnique (put_receipt content d)
unfolding put_receipt
put_receipt-IsUnique [] d h = h
put_receipt-IsUnique ((e, none) ∷ rest) d h = put_receipt-IsUnique rest d h
put_receipt-IsUnique ((e, some users) ∷ rest) d h =
    put_receipt-IsUnique rest (put_readers e users d) (put_readers-IsUnique e users d h)

put_receipt_event-IsUnique :
    (d : Dict Receipt) (e : Ephemeral) → IsUnique d → IsUnique (put_receipt_event d e)
unfolding put_receipt_event
put_receipt_event-IsUnique d e h = go (str_eq e.type "m.receipt") e.content
  where
    go :
        (b : Bool) (o : Option (Dict (Option (Dict Json))))
        → IsUnique (if b then (elim o [ none ↦ d | some content ↦ put_receipt content d ]) else d)
    go true none = h
    go true (some content) = put_receipt-IsUnique content d h
    go false o = h

pub put_ephemeral-IsUnique :
    (d : Dict Receipt) (es : List Ephemeral) → IsUnique d → IsUnique (put_ephemeral d es)
unfolding put_ephemeral
put_ephemeral-IsUnique d [] h = h
put_ephemeral-IsUnique d (e ∷ es) h =
    put_ephemeral-IsUnique (put_receipt_event d e) es (put_receipt_event-IsUnique d e h)
