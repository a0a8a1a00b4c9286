-- ===== src/Tests/Tables.antt =====
-- The scan of a shard without labels and the shares of its sources, as in
-- source/cuMatch/table_join_kernel_basic.cu.
use cu_match.Prelude.{ℕ, ◌<◌, ◌≤◌, ◌≡◌, ◌↔◌, false, some, List, [], ◌∷◌, arith, refl}
use cu_match.Shard.{source_vertex}
use cu_match.TableJoin.{JoinTask, Scan, initial, join_initial}
use cu_match.TableJoin.Split.{lower, upper, max_blocks_opt, split_sources_cases}
use cu_match.TableJoin.Sources.{edges_from, join_initial-edges}
use cu_match.Tests.Shards.{three_edges}
use cu_match.Tests.Matches.{each_list}
use cu_match.Tests.Joins.{in_order, in_order-IsSchedule}

abbrev one_table : JoinTask
one_table = record {
  num_query_edges = 1;
  shard_ptrs = λ i. three_edges;
  edge_order_with_vid = λ i. i;
  is_join_vertex = λ i. false;
}

abbrev scan_to : ℕ → Scan
scan_to hi = record {
  min_iter_source_vertex = λ d. 0;
  min_iter_dest_vertex = λ d. 0;
  max_iter_source_vertex = λ d. hi;
  max_iter_dest_vertex = λ d. 0;
  rslt = λ v. 0;
  state = λ d. initial;
  im_size = λ d. 0;
  im_data = λ d. [];
  flip24_arrs = λ e p. 0;
}

abbrev pair : ℕ → ℕ → List ℕ
pair lo hi = lo ∷ hi ∷ []

split_sources_cases_example :
    (0 < 9000
      → (b : ℕ) × (b < max_blocks_opt)
        × ((c : ℕ)
            → c < max_blocks_opt
            → ((lower one_table pair 0 three_edges (scan_to 9000) c ≤ 4321)
                × (4321 ≤ upper one_table pair 0 three_edges (scan_to 9000) c))
              ↔ (c ≡ b)))
    × (◌≡◌ {A = ℕ} 9000 0
        → (c : ℕ) → c < max_blocks_opt
        → (lower one_table pair 0 three_edges (scan_to 9000) c ≤ 4321)
          × (4321 ≤ upper one_table pair 0 three_edges (scan_to 9000) c))
split_sources_cases_example =
    split_sources_cases one_table pair 0 three_edges (scan_to 9000) 9000 4321 refl refl
      (omega arith) (omega arith)

join_initial-edges_example :
    (s' : Scan) × (join_initial one_table in_order 0 three_edges 2 0 (scan_to 0) ≡ some s')
    × (s'.im_size 0 ≡ edges_from one_table in_order 0 three_edges 0 0 2)
    × (s'.state 0 ≡ initial)
join_initial-edges_example =
    join_initial-edges one_table in_order 0 three_edges refl (λ e. omega (arith, e))
      in_order-IsSchedule (λ i lt. each_list (source_vertex three_edges i)) 2 0 (scan_to 0)
      (omega arith) (omega arith) (omega arith) (omega arith)
