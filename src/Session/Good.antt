-- ===== src/Session/Good.antt =====
-- What the view of the results needs of its store.
use htrace.Common.{
  ℕ, suc, ◌<◌, ◌≤◌, ◌≡◌, ◌+◌, refl, sym, true, false, ◌||◌, List, [], ◌∷◌, ◌++◌, All, All-imp, any,
  length, arith, subst,
}
use htrace.External.{contains, distinct, Collection}
use htrace.Span.{Ref, Span}
use htrace.Store.{alloc}
use htrace.Store.Alloc.{contains-refs_from, distinct-refs_from, refs_from, alloc-refs, alloc-next}
use htrace.Store.Fetched.{IsAlone}
use htrace.Store.Sound.{IsSound}
use htrace.Store.Grown.{alloc-IsSound, same-Forest}
use htrace.Widgets.Links.{SameLinks}
use htrace.ResultsView.{View}
use htrace.SearchView.Indexed.{not_contains, All-keep, distinct-keep}
use htrace.SearchView.Paging.{SameResults}

-- The links between the models form forests, and the results are models that are there, each once.
pub record IsGood (v : View) : Type 0 where
  pub sound : IsSound v.store
  pub known : All (λ r. r < v.store.next) v.search_results
  pub different : distinct v.search_results ≡ true

-- A change of the view that keeps this.
abbrev pub Keeping : View → View → Type 0
Keeping v w = IsGood v → IsGood w

-- The same results, with at least as many models.
pub store-IsGood :
    (v w : View)
    → w.search_results ≡ v.search_results
    → v.store.next ≤ w.store.next
    → IsSound w.store
    → IsGood v
    → IsGood w
store-IsGood v w e grows sound h = record {
  sound = sound;
  known = rw e (All-imp _ _ v.search_results (λ r lt. omega arith) h.known);
  different = rw e h.different;
}

pub same-IsGood : (v w : View) → SameResults w v → IsGood v → IsGood w
same-IsGood v w s h =
    store-IsGood v w s.results (rw s.store (omega arith)) (subst IsSound (sym s.store) h.sound) h

pub links-IsGood :
    (v w : View)
    → w.search_results ≡ v.search_results
    → SameLinks v.store w.store
    → IsGood v
    → IsGood w
links-IsGood v w e s h =
    store-IsGood v w e (let n = s.next_still in omega arith)
      (record {
        up = same-Forest s.up_still s.next_still h.sound.up;
        down = same-Forest s.down_still s.next_still h.sound.down;
      })
      h

-- Results that are taken out.
pub removed-IsGood :
    (c : Collection) (v w : View) (ms : List Ref)
    → w.search_results ≡ c.remove v.search_results ms
    → w.store ≡ v.store
    → IsGood v
    → IsGood w
removed-IsGood c v w ms e s h = record {
  sound = subst IsSound (sym s) h.sound;
  known = rw (e, s, c.remove_lem v.search_results ms) (All-keep _ _ v.search_results h.known);
  different =
      rw (e, c.remove_lem v.search_results ms) (distinct-keep _ v.search_results h.different);
}

-- New models are none of the results.
pub results-new :
    (rs : List Ref) (ss : List Span) (n : ℕ)
    → All (λ r. r < n) rs
    → any (contains rs) (refs_from n ss) ≡ false
results-new rs [] n h = refl
results-new rs (s ∷ ss) n h =
    let grown = All-imp (λ r. r < n) (λ r. r < suc n) rs (λ r lt. omega arith) h in
    ground (arith, not_contains rs n h, results-new rs ss (suc n) grown)

contains-append :
    (xs ys : List ℕ) (a : ℕ) → contains (xs ++ ys) a ≡ (contains xs a || contains ys a)
contains-append [] ys a = refl
contains-append (x ∷ xs) ys a = ground (arith, contains-append xs ys a)

distinct-added :
    (rs : List Ref) (ss : List Span) (n : ℕ)
    → All (λ r. r < n) rs
    → distinct rs ≡ true
    → distinct (rs ++ refs_from n ss) ≡ true
distinct-added [] ss n h d = distinct-refs_from ss n
distinct-added (r ∷ rs) ss n h d = ground (
  arith,
  contains-append rs (refs_from n ss) r,
  contains-refs_from ss n r h.0,
  distinct-added rs ss n h.1,
)

All-added :
    (rs : List Ref) (ss : List Span) (n : ℕ)
    → All (λ r. r < n) rs
    → All (λ r. r < n + length ss) (rs ++ refs_from n ss)
All-added [] [] n h = tt
All-added [] (s ∷ ss) n h = (
  omega arith,
  All-imp (λ r. r < suc n + length ss) (λ r. r < n + suc (length ss)) (refs_from (suc n) ss)
      (λ r lt. omega arith) (All-added [] ss (suc n) tt),
)
All-added (r ∷ rs) ss n h = (let lt = h.0 in omega arith, All-added rs ss n h.1)

-- Models that refer to no others are made, and added to the results: they stand behind them.
pub results-added :
    (c : Collection) (ss : List Span) (v : View)
    → IsGood v
    → c.add v.search_results (alloc ss v.store).0 ≡ v.search_results ++ refs_from v.store.next ss
results-added c ss v h = rw (alloc-refs ss v.store) (
    c.add_lem v.search_results (refs_from v.store.next ss)
      (results-new v.search_results ss v.store.next h.known) (distinct-refs_from ss v.store.next))

pub added-IsGood :
    (c : Collection) (ss : List Span) (v w : View)
    → All IsAlone ss
    → w.search_results ≡ c.add v.search_results (alloc ss v.store).0
    → w.store ≡ (alloc ss v.store).1
    → IsGood v
    → IsGood w
added-IsGood c ss v w alone e s h = record {
  sound = subst IsSound (sym s) (alloc-IsSound ss v.store alone h.sound);
  known =
      rw (e, s, results-added c ss v h, alloc-next ss v.store)
        (All-added v.search_results ss v.store.next h.known);
  different =
      rw (e, results-added c ss v h)
        (distinct-added v.search_results ss v.store.next h.known h.different);
}
