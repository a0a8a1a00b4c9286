-- ===== src/Tests/Negatives.antt =====
-- A vertex against a list of a negative edge, as source/cuMatch/LFTJ_kernel_negative.cu tests it.
use cu_match.Prelude.{◌≢◌, ◌≡◌, ◌↔◌, inl, not, true, ◌==◌, if◌then◌else◌}
use cu_match.Flip24.{read_element}
use cu_match.Kernel.{add32}
use cu_match.Negative.{NegativeInfo, regular, negative, is_negative, test_edge, test_edges}
use cu_match.Negative.Lists.{AreFitting, test_edges_iff}
use cu_match.NegativeConstraint.{test_again, test_again_cases}
use cu_match.Tests.Constraints.{one_partner}
use cu_match.Tests.Joins.{two_lists, loaded, second-IsList}

abbrev second_negative : NegativeInfo
second_negative = record {
  is_negative_vertex_with_degree = λ d. 1;
  num_negative_per_vertex = λ v. 0;
  edge_type_list = λ i. if i == 1 then negative else regular;
}

test_edges_iff_example :
    (test_edges two_lists second_negative 1 0 2 loaded 0 1 true 0 2 ≡ true)
    ↔ AreFitting two_lists second_negative 1 0 2 loaded 0 1 0 2
test_edges_iff_example =
    test_edges_iff two_lists second_negative 1 0 2 loaded 0 1 0 2
      (λ k p q ne. inl (second-IsList k q ne))

test_again_cases_example :
    (loaded.min_iter_per_shard 1 1 ≢ add32 (loaded.max_iter_per_shard 1 1) 1
      → test_again two_lists second_negative one_partner 1 0 2 loaded 1 1 true
        ≡ test_edge two_lists second_negative 1 0 2 loaded 1 1 true)
    × (loaded.min_iter_per_shard 1 1 ≡ add32 (loaded.max_iter_per_shard 1 1) 1
        → is_negative (second_negative.edge_type_list 1) ≡ true
        → (test_edge two_lists second_negative 1 0 2 loaded 1 1 true ≡ true)
          × (test_again two_lists second_negative one_partner 1 0 2 loaded 1 1 true
              ≡ not (1 == read_element (loaded.flip24_arrs 1) 0)))
test_again_cases_example = test_again_cases two_lists second_negative one_partner 1 0 2 loaded 1 1
