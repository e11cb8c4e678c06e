-- ===== src/Partition/Agreement.antt =====
-- internal/domain/service/workload_partitioner.go: PartitionWorkload against PartitionForWorker, and
-- when they succeed.
use vuhive_cloud.Common.{
  ℕ, zero, suc, ◌<◌, ◌≡◌, refl, sym, ap, ◌∙◌, inl, inr, ◌↔◌, true, false, Option, none, some, List,
  [], ◌∷◌, ◌++◌, length, Text, codes, trim_space, is_blank, Result, ok, err, ◌>>=◌, subst, is_ok,
  Result-cases, is_some, arith, ltb, ◌==◌, if◌then◌else◌, Bool-cases, Option-cases, length-append,
}
use vuhive_cloud.Common.Int.{ℤ, pos, negsuc, ltb_ℤ, ◌≤ℤ◌}
use vuhive_cloud.Common.Dict.{Dict}
use vuhive_cloud.Partition.Scenarios.{ScenarioPartition}
use vuhive_cloud.Partition.Nodes.{
  Node, Nodes, set_by_key, with_content, is_mapping, find_node_by_key, clone_yaml_node,
  clone_yaml_node_lem,
}
use vuhive_cloud.Partition.Workload.{
  WorkloadPartition, new_workload_partition, partition_for_index, partition_all, load,
  partition_workload, partition_for_worker, finish, share_concurrency,
}

pub nth {ℓ} : {A : Type ℓ} → ℕ → List A → Option A
nth i [] = none
nth zero (x ∷ xs) = some x
nth (suc i) (x ∷ xs) = nth i xs

nth-append {ℓ} :
    {A : Type ℓ} (i : ℕ) (xs : List A) (x : A)
    → nth i (xs ++ (x ∷ []))
      ≡ (if ltb i (length xs) then nth i xs else if i == length xs then some x else none)
unfolding nth
nth-append zero [] x = ground arith
nth-append (suc i) [] x = ground arith
nth-append zero (y ∷ xs) x = ground arith
nth-append (suc i) (y ∷ xs) x = ground (arith, nth-append i xs x)

none_below : (i : ℕ) → i < 0 → ⊥
none_below i h = omega arith

-- Two results that are combined, when the combination succeeds.
both_ok {ℓ} :
    {A B C : Type ℓ} (m : Result A) (n : Result B) (f : A → B → C) {c : C}
    → (do a ← m; b ← n; ok (f a b)) ≡ ok c
    → (a : A) × (b : B) × (m ≡ ok a) × (n ≡ ok b) × (c ≡ f a b)
both_ok (ok a) (ok b) f h = (a, b, refl, refl, cc)
both_ok (ok a) (err e) f h = cc
both_ok (err e) n f h = cc

module _ (upper : ℕ → ℕ) (encode : Node → Option Text) where
  -- A list of partitions that was made, step by step.
  pub all_steps :
      (root : Node) (workers : ℤ) (k : ℕ) {ps : List WorkloadPartition}
      → partition_all upper encode root workers (suc k) ≡ ok ps
      → (first : List WorkloadPartition) × (last : WorkloadPartition) × (partition_all upper encode
            root workers k
          ≡ ok first)
        × (partition_for_index upper encode root (pos k) workers ≡ ok last)
        × (ps ≡ first ++ (last ∷ []))
  unfolding partition_all
  all_steps root workers k h =
      both_ok (partition_all upper encode root workers k)
        (partition_for_index upper encode root (pos k) workers) (λ first last. first ++ (last ∷ []))
        h

  pub all_none :
      (root : Node) (workers : ℤ) {ps : List WorkloadPartition}
      → partition_all upper encode root workers 0 ≡ ok ps
      → [] ≡ ps
  unfolding partition_all
  all_none root workers h = cc

  partition_all-nth :
      (root : Node) (workers : ℤ) (k : ℕ) {ps : List WorkloadPartition}
      → partition_all upper encode root workers k ≡ ok ps
      → (length ps ≡ k)
        × ((i : ℕ)
            → i < k
            → (p : WorkloadPartition) × (nth i ps ≡ some p)
              × (partition_for_index upper encode root (pos i) workers ≡ ok p))
  partition_all-nth root workers zero h =
      let e = all_none root workers h in (rw (sym e) refl, λ i small. absurd (none_below i small))
  partition_all-nth root workers (suc k) h =
      let (first, last, made, made_last, e) = all_steps root workers k h in
      let (count, get) = partition_all-nth root workers k made in
      (
        ap length e ∙ length-append first (last ∷ []) ∙ omega arith,
        λ i small. elim (Bool-cases (ltb i k)) [
          | inl below ↦
              let (p, at, from) = get i (ground arith) in
              (p, ap (nth i) e ∙ nth-append i first last ∙ ground (arith, count, at, below), from)
          | inr above ↦ (
            last,
            ap (nth i) e ∙ nth-append i first last ∙ ground (arith, count, above, small),
            subst (λ j. partition_for_index upper encode root (pos j) workers ≡ ok last)
                (ground arith) made_last,
          )
        ],
      )

  load_scenarios :
      (parse : Text → Option Node) (raw : Text) {root : Node}
      → load upper encode parse raw ≡ ok root
      → (s : Node) × (find_node_by_key (codes "scenarios") root ≡ some s) × (is_mapping s ≡ true)
  unfolding load
  load_scenarios parse raw {root} h = elim (Option-cases (parse (trim_space raw))) [
    | inl e ↦ absurd (ground arith)
    | inr (r, e) ↦ elim (Option-cases (find_node_by_key (codes "scenarios") r)) [
      | inl e' ↦ absurd (ground arith)
      | inr (s, e') ↦ (s, ground arith, ground arith)
    ]
  ]

  module _ (parse : Text → Option Node) where
    pub workload_steps :
        (raw : Text) (workers : ℕ) {ps : List WorkloadPartition}
        → partition_workload upper encode parse raw (pos workers) ≡ ok ps
        → (is_blank raw ≡ false)
          × (0 < workers)
          × ((root : Node) × (load upper encode parse raw ≡ ok root)
              × (partition_all upper encode root (pos workers) workers ≡ ok ps))
    unfolding partition_workload
    workload_steps raw workers h = elim (Result-cases (load upper encode parse raw)) [
      | inl (root, e) ↦ (ground arith, ground arith, (root, e, ground arith))
      | inr (e, r) ↦ absurd (ground arith)
    ]

    worker_from :
        (raw : Text) (workers i : ℕ) (root : Node)
        → is_blank raw ≡ false
        → i < workers
        → load upper encode parse raw ≡ ok root
        → partition_for_worker upper encode parse raw (pos i) (pos workers)
          ≡ partition_for_index upper encode root (pos i) (pos workers)
    unfolding partition_for_worker
    worker_from raw workers i root ink small h = ground arith

    -- Where PartitionWorkload succeeds for some number of workers, it makes one partition for each, and
    -- PartitionForWorker makes the same partition for the index of any of them.
    pub worker_agrees :
        (raw : Text) (workers : ℕ) (ps : List WorkloadPartition) (i : ℕ)
        → partition_workload upper encode parse raw (pos workers) ≡ ok ps
        → i < workers
        → (length ps ≡ workers)
          × ((p : WorkloadPartition) × (nth i ps ≡ some p)
              × (partition_for_worker upper encode parse raw (pos i) (pos workers) ≡ ok p))
    worker_agrees raw workers ps i h small =
        let (ink, some_worker, (root, loaded, made)) = workload_steps raw workers h in
        let (count, get) = partition_all-nth root (pos workers) workers made in
        let (p, at, from) = get i small in
        (count, (p, at, worker_from raw workers i root ink small loaded ∙ from))

    finish_succeeds :
        (root s : Node) (shared : Nodes × Dict Text × Dict ScenarioPartition) (workers i : ℕ)
        → ((n : Node) → is_some (encode n) ≡ true)
        → i < workers
        → is_ok (finish upper encode (pos i) (pos workers) root s shared) ≡ true
    unfolding finish new_workload_partition
    finish_succeeds root s (content, env, summary) workers i encodes small =
        let shared = set_by_key (codes "scenarios") (with_content content s) root in
        elim (Option-cases (encode (share_concurrency (pos i) (pos workers) shared))) [
          | inl e ↦
              absurd (ground (arith, e, encodes (share_concurrency (pos i) (pos workers) shared)))
          | inr (config, e) ↦ ground (arith, e)
        ]

    index_succeeds :
        (root s : Node) (workers i : ℕ)
        → ((n : Node) → is_some (encode n) ≡ true)
        → find_node_by_key (codes "scenarios") root ≡ some s
        → is_mapping s ≡ true
        → i < workers
        → is_ok (partition_for_index upper encode root (pos i) (pos workers)) ≡ true
    unfolding partition_for_index
    index_succeeds root s workers i encodes e m small =
        rw (partition_for_index, clone_yaml_node_lem root, e, m)
          (finish_succeeds (clone_yaml_node root) s _ workers i encodes small)

    accepted :
        (raw : Text) (index workers : ℤ)
        → is_ok (partition_for_worker upper encode parse raw index workers) ≡ true
        → (is_blank raw ≡ false)
          × (pos 0 ≤ℤ index)
          × (ltb_ℤ index workers ≡ true)
          × (is_ok (load upper encode parse raw) ≡ true)
    unfolding partition_for_worker
    accepted raw index workers h = elim (Result-cases (load upper encode parse raw)) [
      | inl (root, e) ↦ ground (arith, e)
      | inr (r, e) ↦ ground (arith, e)
    ]

    accepts :
        ((n : Node) → is_some (encode n) ≡ true)
        → (raw : Text) (index workers : ℤ) → is_blank raw ≡ false
        → pos 0 ≤ℤ index
        → ltb_ℤ index workers ≡ true
        → is_ok (load upper encode parse raw) ≡ true
        → is_ok (partition_for_worker upper encode parse raw index workers) ≡ true
    accepts encodes raw (negsuc i) workers ink low high h = absurd (ground arith)
    accepts encodes raw (pos i) (negsuc n) ink low high h = absurd (ground arith)
    accepts encodes raw (pos i) (pos n) ink low high h =
        elim (Result-cases (load upper encode parse raw)) [
          | inl (root, e) ↦
              let (s, found, m) = load_scenarios parse raw e in
              rw (worker_from raw n i root ink (ground arith) e)
                (index_succeeds root s n i encodes found m (ground arith))
          | inr (r, e) ↦ absurd (ground (arith, e))
        ]

    -- With an encoder that accepts every document, PartitionForWorker succeeds just when the
    -- configuration is not blank, the index is that of a worker, and it is a document whose
    -- scenarios are a mapping with at least one entry.
    pub partition_for_worker_iff :
        ((n : Node) → is_some (encode n) ≡ true)
        → (raw : Text) (index workers : ℤ)
        → (is_ok (partition_for_worker upper encode parse raw index workers) ≡ true) ↔ (
            (is_blank raw ≡ false)
            × (pos 0 ≤ℤ index)
            × (ltb_ℤ index workers ≡ true)
            × (is_ok (load upper encode parse raw) ≡ true))
    partition_for_worker_iff encodes raw index workers = (
      accepted raw index workers,
      λ (ink, low, high, h). accepts encodes raw index workers ink low high h,
    )
