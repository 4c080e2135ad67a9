-- ===== src/Session/Returns.antt =====
-- The traversals of tree.js end on every span that the search page can have.
use htrace.Common.{ℕ, ◌+◌, ◌<◌, ◌≤◌, ◌≡◌, List, [], for_each, arith, ℤ, ◌≤ℤ◌}
use htrace.External.{Underscore, Collection, Moment}
use htrace.Span.{Ref}
use htrace.Tree.{
  height_loop, tree_height, tree_traverse_depth_first_pre, tree_traverse_depth_first_post,
}
use htrace.Tree.Walks.{walks_return}
use htrace.Store.{Store, parents_of, children_of}
use htrace.Store.Sound.{IsSound}
use htrace.Store.Extent.{get_earliest_begin, get_latest_end, Related}
use htrace.Store.Extent.Bounds.{Enough, extent_lem}
use htrace.Session.{Session, view_of}
use htrace.Session.Steps.{Reachable}
use htrace.Session.Invariant.{Reachable-IsGood}

-- With `fuel`, the traversals from `r` do what their source says: the fuel does not end before them.
abbrev pub Return :
    {S : Type 0} → (Ref → List Ref) → (fuel : ℕ) → Ref → (Ref → ℕ → S → S) → S → Type 0
Return links fuel r cb s =
    (tree_traverse_depth_first_pre links fuel r 0 cb s
      ≡ for_each (λ d. tree_traverse_depth_first_pre links fuel d (0 + 1) cb) (links r) (cb r 0 s))
    × (tree_traverse_depth_first_post links fuel r 0 cb s
        ≡ cb r 0
            (for_each (λ d. tree_traverse_depth_first_post links fuel d (0 + 1) cb) (links r) s))
    × (tree_height links fuel r ≡ height_loop (tree_height links fuel) 0 (links r))

-- The extent of the relatives of `r`.
pub record IsExtent (st : Store) (r : Ref) (begin end : ℤ) : Type 0 where
  pub no_earlier : (m : Ref) → Related st r m → begin ≤ℤ (st.span m).begin
  pub earliest : (m : Ref) × Related st r m × (begin ≡ (st.span m).begin)
  pub no_later : (m : Ref) → Related st r m → (st.span m).end ≤ℤ end
  pub latest : (m : Ref) × Related st r m × (end ≡ (st.span m).end)

-- As much fuel as there are models is enough.
models-Enough :
    (st : Store) (sound : IsSound st) (fuel : ℕ) (r : Ref)
    → r < st.next
    → st.next ≤ fuel
    → Enough st sound fuel r
models-Enough st sound fuel r there enough = record {
  above = omega (arith, sound.up.bounded r there);
  below = omega (arith, sound.down.bounded r there);
}

module _ {m : Moment} {u : Underscore} {c : Collection} (start s : Session)
    (sound : IsSound (view_of start).store) (none_yet : (view_of start).search_results ≡ [])
    (reached : Reachable m u c start s) (r : Ref) (there : r < (view_of s).store.next) (fuel : ℕ)
    (enough : (view_of s).store.next ≤ fuel) where
  abbrev here : IsSound (view_of s).store
  here = (Reachable-IsGood m u c start s sound none_yet reached).sound

  -- In any state of a search page that began with a sound store and no results, for any span that is
  -- there, and with as much fuel as there are spans: the traversals to its ancestors and to its
  -- descendants, and `treeHeight`, satisfy the recursive equations of the source, so that they return;
  -- the earliest begin is that of a relative, and no relative begins earlier; and the latest end is that
  -- of a relative, and no relative ends later.
  pub Reachable-returns :
      {S : Type 0} (cb : Ref → ℕ → S → S) (t : S)
      → (let st = (view_of s).store in
          Return (parents_of st) fuel r cb t
          × Return (children_of st) fuel r cb t
          × IsExtent st r (get_earliest_begin st fuel r) (get_latest_end st fuel r))
  Reachable-returns cb t =
      let st = (view_of s).store in
      let e = models-Enough st here fuel r there enough in
      let x = extent_lem st here fuel r e in
      (
        walks_return (parents_of st) here.up.rank here.up.ranked fuel r 0 cb t e.above,
        walks_return (children_of st) here.down.rank here.down.ranked fuel r 0 cb t e.below,
        record { no_earlier = x.0.0; earliest = x.0.1; no_later = x.1; latest = x.2 },
      )
