-- ===== src/TableJoin/Sources.antt =====
-- What the loop of source/cuMatch/table_join_kernel_basic.cu for the last edge counts.
use cu_match.Prelude.{
  ℕ, zero, suc, ◌+◌, ◌-◌, ◌*◌, ◌^◌, ◌≤◌, ◌<◌, ◌≡◌, ◌≢◌, Bool, true, false, not, ◌&&◌, ◌==◌, ltb,
  some, List, [], ◌∷◌, arith, refl, ap, sym, ◌∙◌, update, Bool-cases, inl, inr,
}
use mathlib.Core.Path.{subst}
use cu_match.Flip24.{Memory, read_element}
use cu_match.Shard.{Flip24Shard, seek, adj_list_vid, source_vertex}
use cu_match.Kernel.{add32, sub32}
use cu_match.Kernel.Rounds.{IsSchedule}
use cu_match.TableJoin.Ranges.{how_many, how_many_from, how_many-schedule}
use cu_match.TableJoin.{
  is_endless, JoinTask, Scan, join_initial, start_scan, is_initial, accepts, count_dests,
  count_sources, load_dests, take_source, initial,
}

module _ (t : JoinTask) (schedule : ℕ → ℕ → List ℕ) (dep : ℕ) (shard : Flip24Shard) where
  -- Does an entry of a list fit the vertex that the second end is bound to, if it is bound?
  abbrev pub fits : Memory → ℕ → ℕ → Bool
  fits list v2_id i = not (t.is_join_vertex (dep * 2 + 1) && not (v2_id == read_element list i))

  -- The edges of the source with the number `i`
  abbrev pub edges_of : ℕ → ℕ → ℕ
  edges_of v2_id i =
      let adj = adj_list_vid shard (source_vertex shard i) in
      how_many_from (fits (seek shard.bytes adj.colv) v2_id) adj.colptr adj.length

  -- `n` sources, from the number `i` on
  abbrev pub edges_from : ℕ → ℕ → ℕ → ℕ
  edges_from v2_id i zero = 0
  edges_from v2_id i (suc n) = edges_of v2_id i + edges_from v2_id (i + 1) n

  module _ (free : t.is_join_vertex (dep * 2) ≡ false)
      (two : t.edge_order_with_vid (dep * 2 + 1) ≢ t.edge_order_with_vid (dep * 2))
      (is_schedule : IsSchedule schedule)
      (ranges : (i : ℕ)
        → i < shard.num_rows
        → let adj = adj_list_vid shard (source_vertex shard i) in
          (0 < adj.colptr + adj.length) × (adj.colptr + adj.length < 2 ^ 31)) where
    record Counted (is : List ℕ) (s s' : Scan) : Type 0 where
      size :
          s'.im_size dep
          ≡ s.im_size dep
            + how_many
                (fits (s.flip24_arrs (dep * 2 + 1)) (s.rslt (t.edge_order_with_vid (dep * 2 + 1))))
                is
      lower : s'.min_iter_source_vertex ≡ s.min_iter_source_vertex
      upper : s'.max_iter_source_vertex ≡ s.max_iter_source_vertex
      arrs : s'.flip24_arrs ≡ s.flip24_arrs
      bound : s'.rslt ≡ s.rslt

    count_dests-Counted :
        (is : List ℕ) (s : Scan) → Counted is s (count_dests t schedule dep shard is s)
    unfolding count_dests accepts
    count_dests-Counted [] s = record {
      size = omega arith;
      lower = refl;
      upper = refl;
      arrs = refl;
      bound = refl;
    }
    count_dests-Counted (i ∷ is) s =
        let v2_id = read_element (s.flip24_arrs (dep * 2 + 1)) i in
        let kept = record s { im_size = update s.im_size dep (s.im_size dep + 1) } in
        elim (Bool-cases (accepts t schedule dep shard s v2_id)) [
          | inl fitting ↦
              let c = count_dests-Counted is kept in
              rw fitting (record {
                size = ground (arith, c.size, fitting);
                lower = c.lower;
                upper = c.upper;
                arrs = c.arrs;
                bound = c.bound;
              })
          | inr other ↦
              let c = count_dests-Counted is s in
              rw other (record {
                size = ground (arith, c.size, other);
                lower = c.lower;
                upper = c.upper;
                arrs = c.arrs;
                bound = c.bound;
              })
        ]

    -- The state before the source with the number `i`, of `k` in all
    record At (v2_id i k : ℕ) (s : Scan) : Type 0 where
      lower : s.min_iter_source_vertex dep ≡ i
      upper : s.max_iter_source_vertex dep + 1 ≡ k
      rows : s.flip24_arrs (dep * 2) ≡ seek shard.bytes shard.rowv
      bound : s.rslt (t.edge_order_with_vid (dep * 2 + 1)) ≡ v2_id

    -- The same with the list of the source loaded
    record Loaded (v2_id i k : ℕ) (s : Scan) : Type 0 where
      here : At v2_id i k s
      list :
          s.flip24_arrs (dep * 2 + 1)
          ≡ seek shard.bytes (adj_list_vid shard (source_vertex shard i)).colv
      first : s.min_iter_dest_vertex dep ≡ (adj_list_vid shard (source_vertex shard i)).colptr
      last :
          s.max_iter_dest_vertex dep
          ≡ sub32
              (add32
                (adj_list_vid shard (source_vertex shard i)).colptr
                (adj_list_vid shard (source_vertex shard i)).length)
              1

    take_source-Loaded :
        (v2_id i k : ℕ) (s : Scan)
        → At v2_id i k s
        → Loaded v2_id i k (take_source t schedule dep shard s)
          × ((take_source t schedule dep shard s).im_size ≡ s.im_size)
    unfolding load_dests source_vertex
    take_source-Loaded v2_id i k s a =
        let vertex : read_element (s.flip24_arrs (dep * 2)) (s.min_iter_source_vertex dep)
            ≡ source_vertex shard i =
          rw (a.rows, a.lower) refl in
        (
          record {
            here = record {
              lower = a.lower;
              upper = a.upper;
              rows = ground (arith, a.rows);
              bound = ground (arith, a.bound);
            };
            list = rw vertex (ground arith);
            first = rw vertex (ground arith);
            last = rw vertex (ground arith);
          },
          refl,
        )

    count_sources_lem :
        (n fuel v2_id i k : ℕ) (s : Scan)
        → Loaded v2_id i k s
        → i + suc n ≡ k
        → k ≡ shard.num_rows
        → k < 2 ^ 32
        → n < fuel
        → (s' : Scan) × (count_sources t schedule dep shard fuel s ≡ some s')
          × (s'.im_size dep ≡ s.im_size dep + edges_from v2_id i (suc n))
          × (s'.state dep ≡ initial)
    unfolding count_sources
    count_sources_lem n zero v2_id i k s l e rows w lt = absurd (omega arith)
    count_sources_lem n (suc fuel) v2_id i k s l e rows w lt =
        let is = schedule (s.min_iter_dest_vertex dep) (s.max_iter_dest_vertex dep) in
        let s1 = count_dests t schedule dep shard is s in
        let c = count_dests-Counted is s in
        let lower = ap (λ (f : ℕ → ℕ). f dep) c.lower ∙ l.here.lower in
        let upper = ap (λ (f : ℕ → ℕ). f dep) c.upper in
        let next : add32 (s1.min_iter_source_vertex dep) 1 ≡ i + 1 = rw lower (omega arith) in
        let s2 : Scan = record s1 {
          min_iter_source_vertex =
              update s1.min_iter_source_vertex dep (add32 (s1.min_iter_source_vertex dep) 1);
        } in
        let adj = adj_list_vid shard (source_vertex shard i) in
        let (some_index, low) = ranges i (omega (arith, e, rows)) in
        let end : sub32 (add32 adj.colptr adj.length) 1 + 1 ≡ adj.colptr + adj.length =
          omega (arith, some_index, low) in
        let ends : is_endless t schedule dep shard s ≡ false =
          rw l.last (ground (arith, end, low)) in
        let same : edges_of v2_id i
            ≡ how_many
                (fits (s.flip24_arrs (dep * 2 + 1)) (s.rslt (t.edge_order_with_vid (dep * 2 + 1))))
                is =
          rw (l.list, l.here.bound, l.first, l.last)
            (sym (
              how_many-schedule (fits (seek shard.bytes adj.colv) v2_id) schedule adj.colptr
                (sub32 (add32 adj.colptr adj.length) 1) adj.length is_schedule (sym end))) in
        let here : At v2_id (i + 1) k s2 = record {
          lower = ground (arith, next);
          upper = rw upper l.here.upper;
          rows = ap (λ (f : ℕ → Memory). f (dep * 2)) c.arrs ∙ l.here.rows;
          bound =
              ap (λ (f : ℕ → ℕ). f (t.edge_order_with_vid (dep * 2 + 1))) c.bound ∙ l.here.bound;
        } in
        let (loaded, size) = take_source-Loaded v2_id (i + 1) k s2 here in
        elim n
            as (λ m.
              i + suc m ≡ k
              → m < suc fuel
              → (s' : Scan) × (count_sources t schedule dep shard (suc fuel) s ≡ some s')
                × (s'.im_size dep ≡ s.im_size dep + edges_from v2_id i (suc m))
                × (s'.state dep ≡ initial)) [
                  | zero ↦ λ e' lt'.
                      let over : ltb (s2.max_iter_source_vertex dep) (s2.min_iter_source_vertex dep)
                          ≡ true =
                        ground (arith, here.lower, here.upper, e') in
                      (
                        record s2 { state = update s2.state dep initial },
                        rw (ends, free, over) refl,
                        c.size ∙ omega (arith, same),
                        ground arith,
                      )
                  | suc m ↦ λ e' lt'.
                      let (s', run, counted, done) =
                        count_sources_lem m fuel v2_id (i + 1) k _ loaded (omega (arith, e')) rows w
                          (omega arith) in
                      let on : ltb (s2.max_iter_source_vertex dep) (s2.min_iter_source_vertex dep)
                          ≡ false =
                        ground (arith, here.lower, here.upper, e') in
                      (
                        s',
                        rw (ends, free, on) run,
                        counted ∙ rw size (omega (arith, c.size, same)),
                        done,
                      )
                ]
          e lt

    -- At the last edge, where its first end is free, the loop ends after as many rounds as the shard
    -- has sources, and `im_size` is the number of edges of all sources whose other end is the vertex
    -- that it is bound to, if it is bound: for each source, the indices of its list that fit, from its
    -- first one on. The two ends are different vertices, and the threads take each index of a
    -- range once, in some order. The shard has a source, and fewer than 2 ^ 32; no list of a source is
    -- empty at the very start of its array, and none ends at 2 ^ 31 or behind.
    pub join_initial-edges :
        (fuel block_idx : ℕ) (s : Scan)
        → dep ≡ sub32 t.num_query_edges 1
        → 0 < shard.num_rows
        → shard.num_rows < 2 ^ 32
        → shard.num_rows ≤ fuel
        → (s' : Scan) × (join_initial t schedule dep shard fuel block_idx s ≡ some s')
          × (s'.im_size dep
              ≡ edges_from (s.rslt (t.edge_order_with_vid (dep * 2 + 1))) 0 shard.num_rows)
          × (s'.state dep ≡ initial)
    unfolding join_initial start_scan
    join_initial-edges fuel block_idx s last pos w enough =
        let s0 = start_scan t schedule dep shard s in
        let v2_id = s.rslt (t.edge_order_with_vid (dep * 2 + 1)) in
        let n = shard.num_rows - 1 in
        let rows : shard.num_rows ≡ suc n = omega arith in
        let (loaded, size) = take_source-Loaded v2_id 0 shard.num_rows s0 (record {
          lower = ground arith;
          upper = ground arith;
          rows = ground arith;
          bound = refl;
        }) in
        let (s', run, counted, done) =
          count_sources_lem n fuel v2_id 0 shard.num_rows _ loaded (omega arith) refl w
            (omega arith) in
        let going : is_initial (s0.state dep) ≡ false = rw free (ground arith) in
        (
          s',
          rw (going) (rw (← last) (ground (arith, free, run))),
          subst (λ m. s'.im_size dep ≡ edges_from v2_id 0 m) (sym rows)
              (counted
                ∙ (let zero_size : s0.im_size dep ≡ 0 = ground arith in
                    omega (arith, ap (λ (f : ℕ → ℕ). f dep) size, zero_size))),
          done,
        )
