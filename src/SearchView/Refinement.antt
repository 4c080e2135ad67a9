-- ===== src/SearchView/Refinement.antt =====
-- What the search form is to its user: a list of results, that grows by the replies to one request
-- at a time.
use htrace.Common.{
  Result-cases, none, is_empty, subst, ℕ, suc, ◌≡◌, refl, sym, inl, inr, Bool, true, false, Option,
  List, [], ltb, Bool-cases, arith, ap,
}
use htrace.External.{Underscore, Collection, Moment}
use htrace.Span.{Ref}
use htrace.Store.{Store}
use htrace.Text.{Text, parse_date}
use htrace.ResultsView.{
  View, TimeField, begin, end, handle_begin_or_end_change, models_to_delete, clear_handler,
}
use htrace.SearchView.{SearchView, Effect, success, error, close}
use htrace.SearchView.Handlers.{
  clear_button_handler, zoom_button_handler, blur_handler, render_search_view,
}
use htrace.SearchView.Query.{Searched, busy, no_criteria, invalid, searching, do_search-Searched}
use htrace.SearchView.Steps.{
  World, requests_after, Step, search, succeed, fail, pick, edit, drop, clear, zoom, blur, show,
  leave, Reachable,
}
use htrace.SearchView.Orderly.{IsOrderly, Reachable-IsOrderly}
use htrace.SearchView.Indexed.{Keeps, remove-Keeps, dropdown-Keeps, remove_all-Keeps}
use htrace.SearchView.Paging.{success-added, set_times-SameResults, zoom_handler-SameResults}

-- The abstract form: whether a request is out, the results, and whether the form was closed.
pub record Board : Type 0 where
  pub waiting : Bool
  pub results : List Ref
  pub closed : Bool

-- What comes from outside: the user asks for results, clears, leaves the form, or does anything else
-- with it; or the server replies, with models or with an error.
pub data Act : Type 0 where
  asks clears leaves uses fails : Act
  replies : List Ref → Act

-- What it may do then. A request is sent only when the user asks and none is out; a reply comes only
-- to a request, and adds its models to the results, or, if it is an error, takes all off; the user
-- takes results off only by clearing.
pub data Move (c : Collection) : Act → Board → Board → Type 0 where
  stay : (b : Board) → Move c uses b b
  refuse : (b : Board) → Move c asks b b
  ask :
      (b : Board)
      → b.closed ≡ false
      → b.waiting ≡ false
      → Move c asks b (record b { waiting = true })
  answer :
      (b : Board) (models : List Ref)
      → b.waiting ≡ true
      → Move c (replies models) b (record b { waiting = false; results = c.add b.results models })
  lose :
      (b : Board) → b.waiting ≡ true → Move c fails b (record b { waiting = false; results = [] })
  take_off :
      (b : Board) (models : List Ref)
      → Move c clears b (record b { results = c.remove b.results models })
  shut : (b : Board) → b.closed ≡ false → Move c leaves b (record b { closed = true })

-- What a step of the form is to its user.
abbrev pub act_of :
    {m : Moment} {u : Underscore} {c : Collection} {w w' : World} → Step m u c w w' → Act
act_of (search w open_) = asks
act_of (succeed w n fuel d models e) = replies models
act_of (fail w n e) = fails
act_of (clear w fuel open_) = clears
act_of (leave w fuel open_) = leaves
act_of _ = uses

abbrev pub board_of : World → Board
board_of w = record {
  waiting = ltb 0 w.requests;
  results = w.view.results_view.search_results;
  closed = w.view.closed;
}

abbrev board : Bool → List Ref → Bool → Board
board waiting results closed = record { waiting = waiting; results = results; closed = closed }

board-path :
    {a b : Bool} {rs ss : List Ref} {c d : Bool}
    → a ≡ b
    → rs ≡ ss
    → c ≡ d
    → board a rs c ≡ board b ss d
board-path p q r i = record { waiting = p i; results = q i; closed = r i }

along :
    (c : Collection) {a : Act} {b b' d d' : Board} → b ≡ b' → d ≡ d' → Move c a b' d' → Move c a b d
along c {a} {b' = b'} {d = d} p q m =
    subst (λ x. Move c a x d) (sym p) (subst (Move c a b') (sym q) m)

-- A step that keeps the results and whether the form is closed is no move.
kept-Move :
    (c : Collection) (w : World) (v : SearchView)
    → Keeps w.view v
    → Move c uses (board_of w) (board_of (record w { view = v }))
kept-Move c w v k =
    along c refl
      (board-path refl (ap (λ (x : View). x.search_results) k.results_still) k.open_still)
      (stay (board_of w))

ltb-suc : (n : ℕ) → ltb 0 (suc n) ≡ true
ltb-suc n = ground arith

-- A reply adds its models to the results, also after the form was closed.
pub success-results :
    (fuel : ℕ) (c : Collection) (d : Bool) (models : List Ref) (v : SearchView)
    → (success fuel c d models v).1.results_view.search_results
      ≡ c.add v.results_view.search_results models
unfolding success
success-results fuel c d models v = elim (Bool-cases v.closed) [
  | inl e ↦ elim (Bool-cases (is_empty v.results_view.search_results)) [
    | inl e' ↦ rw (success, e, e')
    | inr e' ↦ rw (success, e, e')
  ]
  | inr e ↦ (success-added fuel c d models v e).results
]

success-closed :
    (fuel : ℕ) (c : Collection) (d : Bool) (models : List Ref) (v : SearchView)
    → (success fuel c d models v).1.closed ≡ v.closed
unfolding success
success-closed fuel c d models v = ground arith

-- While no search is in progress, no request is out.
none-waiting :
    (w : World) → IsOrderly w → w.view.search_in_progress ≡ false → ltb 0 w.requests ≡ false
none-waiting w h e = elim (Bool-cases (ltb 0 w.requests)) [
  | inr e' ↦ e'
  | inl e' ↦ absurd (let t = h.in_progress (ground arith) in cc)
]

-- The only request is the one that is answered.
was-waiting :
    (w : World) (n : ℕ)
    → IsOrderly w
    → w.requests ≡ suc n
    → (ltb 0 w.requests ≡ true) × (ltb 0 n ≡ false)
was-waiting w n h e = let l = h.at_most_one in (ground arith, ground arith)

asked-Move :
    (m : Moment) (u : Underscore) (c : Collection) (w : World) (o : Option Effect × SearchView)
    → Searched m u w.view o
    → w.view.closed ≡ false
    → IsOrderly w
    → Move c asks
        (board_of w)
        (board_of (record { view = o.1; requests = requests_after o.0 w.requests }))
asked-Move m u c w o (busy e) open_ h = refuse _
asked-Move m u c w o (no_criteria e e') open_ h = refuse _
asked-Move m u c w o (invalid e name err r) open_ h = refuse _
asked-Move m u c w o (searching e e' ps xs prev k) open_ h =
    along c refl (board-path (ltb-suc w.requests) refl refl)
      (ask (board_of w) open_ (none-waiting w h e))

blur-results :
    (m : Moment) (field : TimeField) (text : Text) (v : View)
    → (handle_begin_or_end_change m field text v).search_results ≡ v.search_results
unfolding handle_begin_or_end_change
blur-results m begin text v = elim (Result-cases (parse_date m text)) [
  | inr (err, e) ↦ rw (handle_begin_or_end_change, e)
  | inl (d, e) ↦ rw (handle_begin_or_end_change, e) ((set_times-SameResults d none v).results)
]
blur-results m end text v = elim (Result-cases (parse_date m text)) [
  | inr (err, e) ↦ rw (handle_begin_or_end_change, e)
  | inl (d, e) ↦ rw (handle_begin_or_end_change, e) ((set_times-SameResults none d v).results)
]

clear-results :
    (c : Collection) (fuel : ℕ) (v : View)
    → (clear_handler fuel c true v).search_results
      ≡ c.remove v.search_results (models_to_delete fuel v.store v.search_results).0
unfolding clear_handler
clear-results c fuel v = ground arith

-- Every step of the form that can be reached, a click, an edit or a reply in any order, is a move
-- of the abstract form: a request is sent only by a search, while the form is open and none is out;
-- a reply comes only to a request, and adds its models to the results, or, if it is an error, takes
-- all off; the clear button takes some of the results off; leaving closes the form; and nothing else
-- changes the results, whether a request is out, or whether the form is closed.
pub Step-Move :
    (m : Moment) (u : Underscore) (c : Collection) (store : Store) {w w' : World}
    → Reachable m u c store w
    → (step : Step m u c w w') → Move c (act_of step) (board_of w) (board_of w')
unfolding error close clear_button_handler zoom_button_handler blur_handler render_search_view
Step-Move m u c store r (search w open_) =
    asked-Move m u c w _ (do_search-Searched m u w.view) open_ (Reachable-IsOrderly m u c store r)
Step-Move m u c store r (succeed w n fuel d models e) =
    let p = was-waiting w n (Reachable-IsOrderly m u c store r) e in
    along c refl
      (board-path p.1 (success-results fuel c d models w.view)
        (success-closed fuel c d models w.view))
      (answer (board_of w) models p.0)
Step-Move m u c store r (fail w n e) =
    let p = was-waiting w n (Reachable-IsOrderly m u c store r) e in
    along c refl (board-path p.1 refl refl) (lose (board_of w) p.0)
Step-Move m u c store r (pick w now text open_) = kept-Move c w _ (dropdown-Keeps m now text w.view)
Step-Move m u c store r (edit w i text open_) = stay _
Step-Move m u c store r (drop w i open_) = kept-Move c w _ (remove-Keeps u i w.view)
Step-Move m u c store r (clear w fuel open_) =
    let v = w.view.results_view in
    along c refl (board-path refl (clear-results c fuel v) refl)
      (take_off (board_of w) (models_to_delete fuel v.store v.search_results).0)
Step-Move m u c store r (zoom w fuel open_) =
    along c refl (board-path refl (zoom_handler-SameResults fuel w.view.results_view).results refl)
      (stay (board_of w))
Step-Move m u c store r (blur w field text open_) =
    along c refl (board-path refl (blur-results m field text w.view.results_view) refl)
      (stay (board_of w))
Step-Move m u c store r (show w open_) = stay _
Step-Move m u c store r (leave w fuel open_) =
    along c refl
      (board-path refl
        (ap (λ (v : View). v.search_results) (remove_all-Keeps fuel u w.view).results_still) refl)
      (shut (board_of w) open_)
