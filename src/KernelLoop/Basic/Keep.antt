-- ===== src/KernelLoop/Basic/Keep.antt =====
-- What an intersection of source/cuMatch/LFTJ_kernel_basic.cu leaves as it is.
use cu_match.Prelude.{
  ℕ, zero, suc, ◌+◌, ◌≤◌, ◌<◌, ◌^◌, ◌≡◌, ◌≢◌, refl, ◌∙◌, false, List, [], ◌∷◌, ◌++◌, ltb, ◌==◌, min,
  update, arith, Bool-cases, inl, inr,
}
use cu_match.Flip24.{Memory, read_element}
use cu_match.Kernel.{
  Task, Block, IntersectionType, add32, sub32, update2, sm_threshold, intersects, load_list,
  load_lists, keep_shorter, select_pivot, count_matches, store_matches, store_chunk,
  restrict_to_block,
}
use cu_match.KernelLoop.Basic.Agree.{e_id_of, Fits, set_list, load_list-set_list}

-- The upper ends stay away from 2 ^ 32.
abbrev pub Bounded : Block → Type 0
Bounded b = (d q : ℕ) → b.max_iter_per_shard d q + 256 < 2 ^ 32

module _ (t : Task) (dep match_vid num_join_shards : ℕ) where
  -- The second block is the first but for one depth, and the arrays of its lists.
  pub record Keeps (b c : Block) : Type 0 where
    pub size : (e : ℕ) → e ≢ dep → c.im_size e ≡ b.im_size e
    pub data_of : (e : ℕ) → e ≢ dep → c.im_data e ≡ b.im_data e
    pub type_of : (e : ℕ) → e ≢ dep → c.is_type e ≡ b.is_type e
    pub lower : (e q : ℕ) → e ≢ dep → c.min_iter_per_shard e q ≡ b.min_iter_per_shard e q
    pub upper : (e q : ℕ) → e ≢ dep → c.max_iter_per_shard e q ≡ b.max_iter_per_shard e q
    pub arrays :
        (x : ℕ)
        → ((k : ℕ) → k < num_join_shards → x ≢ e_id_of t dep match_vid num_join_shards k)
        → c.flip24_arrs x ≡ b.flip24_arrs x
    pub bounded : Bounded b → Bounded c

  pub Keeps-refl : (b : Block) → Keeps b b
  Keeps-refl b = record {
    size = λ e ne. refl;
    data_of = λ e ne. refl;
    type_of = λ e ne. refl;
    lower = λ e q ne. refl;
    upper = λ e q ne. refl;
    arrays = λ x ne. refl;
    bounded = λ h. h;
  }

  pub Keeps-trans : (a b c : Block) → Keeps a b → Keeps b c → Keeps a c
  Keeps-trans a b c g h = record {
    size = λ e ne. h.size e ne ∙ g.size e ne;
    data_of = λ e ne. h.data_of e ne ∙ g.data_of e ne;
    type_of = λ e ne. h.type_of e ne ∙ g.type_of e ne;
    lower = λ e q ne. h.lower e q ne ∙ g.lower e q ne;
    upper = λ e q ne. h.upper e q ne ∙ g.upper e q ne;
    arrays = λ x ne. h.arrays x ne ∙ g.arrays x ne;
    bounded = λ x. h.bounded (g.bounded x);
  }

  gaps-Keeps :
      (gaps idxs : ℕ → ℕ) (b : Block) → Keeps b (record b { vid_gap = gaps; vid_gap_idx = idxs })
  gaps-Keeps gaps idxs b = record {
    size = λ e ne. refl;
    data_of = λ e ne. refl;
    type_of = λ e ne. refl;
    lower = λ e q ne. refl;
    upper = λ e q ne. refl;
    arrays = λ x ne. refl;
    bounded = λ h. h;
  }

  other_depth : (e : ℕ) → e ≢ dep → (e == dep) ≡ false
  other_depth e ne = ground arith

  pub sizes-Keeps : (n : ℕ) (b : Block) → Keeps b (record b { im_size = update b.im_size dep n })
  sizes-Keeps n b = record {
    size = λ e ne. rw (other_depth e ne) refl;
    data_of = λ e ne. refl;
    type_of = λ e ne. refl;
    lower = λ e q ne. refl;
    upper = λ e q ne. refl;
    arrays = λ x ne. refl;
    bounded = λ h. h;
  }

  data-Keeps :
      (n : ℕ) (c : List ℕ) (b : Block)
      → Keeps b (record b { im_size = update b.im_size dep n; im_data = update b.im_data dep c })
  data-Keeps n c b = record {
    size = λ e ne. rw (other_depth e ne) refl;
    data_of = λ e ne. rw (other_depth e ne) refl;
    type_of = λ e ne. refl;
    lower = λ e q ne. refl;
    upper = λ e q ne. refl;
    arrays = λ x ne. refl;
    bounded = λ h. h;
  }

  pub type-Keeps :
      (kind : IntersectionType) (b : Block)
      → Keeps b (record b { is_type = update b.is_type dep kind })
  type-Keeps kind b = record {
    size = λ e ne. refl;
    data_of = λ e ne. refl;
    type_of = λ e ne. rw (other_depth e ne) refl;
    lower = λ e q ne. refl;
    upper = λ e q ne. refl;
    arrays = λ x ne. refl;
    bounded = λ h. h;
  }

  set_list-Keeps :
      (i gap lo hi : ℕ) (arr : Memory) (b : Block)
      → i < num_join_shards
      → hi + 256 < 2 ^ 32
      → Keeps b (set_list t dep match_vid num_join_shards i gap lo hi arr b)
  set_list-Keeps i gap lo hi arr b lt small = record {
    size = λ e ne. refl;
    data_of = λ e ne. refl;
    type_of = λ e ne. refl;
    lower = λ e q ne. rw (other_depth e ne) refl;
    upper = λ e q ne. rw (other_depth e ne) refl;
    arrays = λ x ne.
        let n = ne i lt in
        let off : (x == e_id_of t dep match_vid num_join_shards i) ≡ false = ground arith in
        rw off refl;
    bounded = λ h d q. let old = h d q in ground (arith, old);
  }

  pub load_lists-Keeps :
      (rslt : ℕ → ℕ) (i n : ℕ) (b : Block)
      → Fits t dep match_vid num_join_shards
      → i + n ≤ num_join_shards
      → Keeps b (load_lists t dep match_vid num_join_shards rslt i n b)
  unfolding load_lists
  load_lists-Keeps rslt i zero b fits le = Keeps-refl b
  load_lists-Keeps rslt i (suc n) b fits le =
      let (gap, lo, hi, arr, small, same) =
        load_list-set_list t dep match_vid num_join_shards rslt i in
      let b' = load_list t dep match_vid num_join_shards rslt i b in
      let h : Keeps b b' =
        rw (same b) (set_list-Keeps i gap lo hi arr b (omega (arith, le)) (small fits)) in
      Keeps-trans b b' _ h (load_lists-Keeps rslt (i + 1) n b' fits (omega (arith, le)))

  pub select_pivot-Keeps :
      (i n : ℕ) (b : Block) → Keeps b (select_pivot t dep match_vid num_join_shards i n b)
  unfolding select_pivot keep_shorter
  select_pivot-Keeps i zero b = Keeps-refl b
  select_pivot-Keeps i (suc n) b =
      let b' = keep_shorter t dep match_vid num_join_shards i b in
      let h : Keeps b b' = elim (Bool-cases (ltb (b.vid_gap i) (b.vid_gap 0))) [
        | inl shorter ↦ rw shorter (gaps-Keeps _ _ b)
        | inr longer ↦ rw longer (Keeps-refl b)
      ] in
      Keeps-trans b b' _ h (select_pivot-Keeps (i + 1) n b')

  pub count_matches-Keeps :
      (pivot : ℕ) (is : List ℕ) (b : Block)
      → Keeps b (count_matches t dep match_vid num_join_shards pivot is b)
  unfolding count_matches
  count_matches-Keeps pivot [] b = Keeps-refl b
  count_matches-Keeps pivot (i ∷ is) b =
      let v_id = read_element (b.flip24_arrs (t.eids pivot)) i in
      let c = record b { im_size = update b.im_size dep (b.im_size dep + 1) } in
      let h : Keeps b c = sizes-Keeps (b.im_size dep + 1) b in
      elim (Bool-cases
        (intersects t dep match_vid num_join_shards b pivot v_id 0 num_join_shards)) [
          | inl match ↦
              rw (match, count_matches) (Keeps-trans b c _ h (count_matches-Keeps pivot is c))
          | inr miss ↦ rw (miss, count_matches) (count_matches-Keeps pivot is b)
        ]

  store_matches-Keeps :
      (pivot : ℕ) (is : List ℕ) (b : Block)
      → Keeps b (store_matches t dep match_vid num_join_shards pivot is b)
  unfolding store_matches
  store_matches-Keeps pivot [] b = Keeps-refl b
  store_matches-Keeps pivot (i ∷ is) b =
      let v_id = read_element (b.flip24_arrs (t.eids pivot)) i in
      let c = record b {
        im_size = update b.im_size dep (b.im_size dep + 1);
        im_data = update b.im_data dep (b.im_data dep ++ v_id ∷ []);
      } in
      let h : Keeps b c = data-Keeps (b.im_size dep + 1) (b.im_data dep ++ v_id ∷ []) b in
      elim (Bool-cases
        (intersects t dep match_vid num_join_shards b pivot v_id 0 num_join_shards)) [
          | inl match ↦
              rw (match, store_matches) (Keeps-trans b c _ h (store_matches-Keeps pivot is c))
          | inr miss ↦ rw (miss, store_matches) (store_matches-Keeps pivot is b)
        ]

  pub store_matches-is_type :
      (pivot : ℕ) (is : List ℕ) (b : Block)
      → (store_matches t dep match_vid num_join_shards pivot is b).is_type ≡ b.is_type
  unfolding store_matches
  store_matches-is_type pivot [] b = refl
  store_matches-is_type pivot (i ∷ is) b =
      let v_id = read_element (b.flip24_arrs (t.eids pivot)) i in
      elim (Bool-cases
        (intersects t dep match_vid num_join_shards b pivot v_id 0 num_join_shards)) [
          | inl match ↦ rw (match, store_matches) (store_matches-is_type pivot is _)
          | inr miss ↦ rw (miss, store_matches) (store_matches-is_type pivot is b)
        ]

  pub store_chunk-is_type :
      (schedule : ℕ → ℕ → List ℕ) (pivot : ℕ) (b : Block)
      → (store_chunk t dep match_vid num_join_shards schedule pivot b).is_type ≡ b.is_type
  unfolding store_chunk
  store_chunk-is_type schedule pivot b = store_matches-is_type pivot _ _

  range-Keeps :
      (q lo : ℕ) (b : Block)
      → Keeps b (record b { min_iter_per_shard = update2 b.min_iter_per_shard dep q lo })
  range-Keeps q lo b = record {
    size = λ e ne. refl;
    data_of = λ e ne. refl;
    type_of = λ e ne. refl;
    lower = λ e x ne. rw (other_depth e ne) refl;
    upper = λ e x ne. refl;
    arrays = λ x ne. refl;
    bounded = λ h. h;
  }

  pub store_chunk-Keeps :
      (schedule : ℕ → ℕ → List ℕ) (pivot : ℕ) (b : Block)
      → Keeps b (store_chunk t dep match_vid num_join_shards schedule pivot b)
  unfolding store_chunk
  store_chunk-Keeps schedule pivot b =
      let q = t.eids pivot in
      let lo = b.min_iter_per_shard dep q in
      let is = schedule lo (min (b.max_iter_per_shard dep q) (sub32 (add32 lo sm_threshold) 1)) in
      let c = record b { im_size = update b.im_size dep 0; im_data = update b.im_data dep [] } in
      let c' = store_matches t dep match_vid num_join_shards pivot is c in
      Keeps-trans b c' _ (Keeps-trans b c c' (data-Keeps 0 [] b) (store_matches-Keeps pivot is c))
        (range-Keeps q (add32 lo sm_threshold) c')

  pub restrict_to_block-Keeps :
      (block_idx q : ℕ) (b : Block)
      → Keeps b (restrict_to_block t dep match_vid num_join_shards block_idx q b)
  unfolding restrict_to_block
  restrict_to_block-Keeps block_idx q b = record {
    size = λ e ne. refl;
    data_of = λ e ne. refl;
    type_of = λ e ne. refl;
    lower = λ e x ne. rw (other_depth e ne) refl;
    upper = λ e x ne. rw (other_depth e ne) refl;
    arrays = λ x ne. refl;
    bounded = λ h d x. let old = h d x in let top = h dep q in ground (arith, old, top);
  }
