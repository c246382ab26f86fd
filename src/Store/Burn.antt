-- ===== src/Store/Burn.antt =====
-- One-time link shares: the transfer is deleted with the download that completes the set of indices.
pub mod Cover
use bitphase_file_share.Prelude.{
  ℕ, ◌+◌, ◌≤◌, ◌<◌, ◌≡◌, ◌≢◌, ◌⊎◌, ◌↔◌, refl, ◌∙◌, Bool, true, false, ◌&&◌, List, [], ◌∷◌, Option,
  none, some, arith, if◌then◌else◌, leb, leb_ℤ, length, Text, text_eq, text_eq_iff, text_eq_refl,
  lookup-insert_self, lookup-delete_self, lookup, insert, ℤ, pos, negsuc, IntSet, member, add,
  member-add, int_eq_iff, Bool-cases, inl, inr,
}
use Cover.{IsIndexSet, IsCovered, covers_iff, add-IsIndexSet}
use bitphase_file_share.Store.Meta.{TransferMeta, MetaJson, link_mode}
use bitphase_file_share.Store.Disk.{Io, RemoveOutcome, removed, stopped}
use bitphase_file_share.Store.Apart.{IsApart, mark_link_chunk_served-IsApart}
use bitphase_file_share.Store.Disk.Contents.{content_at, content_at-remove_all}
use bitphase_file_share.Store.Ops.{
  Store, set_of, covers, mark_served, mark_link_chunk_served, delete_transfer,
}

-- The served indices of a transfer are distinct indices of its chunks. The handler serves no other.
abbrev pub IsServing : Text → ℕ → Store → Type 0
IsServing id n s = IsIndexSet n (set_of id s.served)

-- Nothing is left of the transfer but, if the system refuses to remove them, its files.
pub record IsBurned (io : Io) (id : Text) (s : Store) : Type 0 where
  pub unknown : lookup id s.meta ≡ none
  pub no_received : set_of id s.received ≡ []
  pub no_served : set_of id s.served ≡ []
  pub removes :
      (io.remove_outcome id ≢ removed) ⊎ ((file : Text) → content_at id file s.disk ≡ none)

-- One more index is served, and nothing else has changed.
pub record IsCounted (id : Text) (i : ℤ) (s s' : Store) : Type 0 where
  pub meta : s'.meta ≡ s.meta
  pub received : s'.received ≡ s.received
  pub disk : s'.disk ≡ s.disk
  pub counted :
      (k : ℤ)
      → (member k (set_of id s'.served) ≡ true) ↔ ((k ≡ i) ⊎ (member k (set_of id s.served) ≡ true))

delete_transfer-IsBurned :
    (io : Io) (id : Text) (s : Store) → IsBurned io id (delete_transfer io id s).1
unfolding delete_transfer
delete_transfer-IsBurned io id s = record {
  unknown = lookup-delete_self id s.meta;
  no_received = rw (set_of, lookup-delete_self id s.received);
  no_served = rw (set_of, lookup-delete_self id s.served);
  removes = elim (removes_or_stops (io.remove_outcome id)) [
    | inl gone ↦ inr (λ file. content_at-remove_all io id file s.disk gone)
    | inr kept ↦ inl kept
  ];
}
  where
    removes_or_stops : (o : RemoveOutcome) → (o ≡ removed) ⊎ (o ≢ removed)
    removes_or_stops removed = inl refl
    removes_or_stops (stopped keeps e) = inr (λ h. cc)

mark_served-IsCounted :
    (id : Text) (i : ℤ) (m : TransferMeta) (s : Store) → IsCounted id i s (mark_served id i m s).1
unfolding mark_served
mark_served-IsCounted id i m s =
    let set = set_of id s.served in
    record {
      meta = refl;
      received = refl;
      disk = refl;
      counted = λ k.
          let here = lookup-insert_self id (add i set) s.served in
          rw (set_of, here) (ground (arith, member-add i k set, int_eq_iff i k));
    }

abbrev no_json : MetaJson
no_json = record { marshal = λ m. []; unmarshal = λ t. none }

module _ (io : Io) (s : Store) (id : Text) (i : ℤ) (m : TransferMeta)
    (e : lookup id s.meta ≡ some m) (mode : m.mode ≡ link_mode) where
  mark_link_chunk_served-mark_served : mark_link_chunk_served io id i s ≡ (
      if (mark_served id i m s).0
      then (true, (delete_transfer io id (mark_served id i m s).1).1)
      else (false, (mark_served id i m s).1))
  mark_link_chunk_served-mark_served =
      unfold mark_link_chunk_served in
      rw (e, mark_link_chunk_served) (ground (arith, text_eq_iff m.mode link_mode))

  burned-mark_served : (mark_link_chunk_served io id i s).0 ≡ (mark_served id i m s).0
  burned-mark_served = rw mark_link_chunk_served-mark_served (ground arith)

  -- Serving a chunk either burns the share or counts the index. A burned share is gone: from memory,
  -- its served indices included, and from the disk unless the system refuses to remove it. One that is
  -- not burned keeps its metadata and its files, and exactly one more index counts as served. No other
  -- transfer's metadata, indices or files change.
  pub mark_link_chunk_served_effect :
      let (burned, s') = mark_link_chunk_served io id i s in
      (((burned ≡ true) × IsBurned io id s') ⊎ ((burned ≡ false) × IsCounted id i s s'))
      × ((other : Text) → (id ≡ other) ⊎ IsApart other s s')
  mark_link_chunk_served_effect = (
    rw mark_link_chunk_served-mark_served (elim (Bool-cases (mark_served id i m s).0) [
      | inl b ↦ rw b (inl (refl, delete_transfer-IsBurned io id (mark_served id i m s).1))
      | inr k ↦ rw k (inr (refl, mark_served-IsCounted id i m s))
    ]),
    λ other. elim (Bool-cases (text_eq id other)) [
      | inl same ↦ inl ((text_eq_iff id other).0 same)
      | inr ne ↦ inr (mark_link_chunk_served-IsApart no_json io id other i s ne)
    ],
  )

-- Serving a chunk of a link share burns it exactly when the share is one-time and every index has
-- now been served at least once.
pub mark_link_chunk_served_iff :
    (io : Io) (s : Store) (id : Text) (i n : ℕ) (m : TransferMeta)
    → lookup id s.meta ≡ some m
    → m.mode ≡ link_mode
    → m.total_chunks ≡ pos n
    → i < n
    → IsServing id n s
    → ((mark_link_chunk_served io id (pos i) s).0 ≡ true)
      ↔ ((m.one_time ≡ true) × IsCovered n (add (pos i) (set_of id s.served)))
mark_link_chunk_served_iff io s id i n m e mode total lt d = (
  λ h. ground (arith, burns, completes.0),
  λ (once, covered). ground (arith, burns, once, completes.1 covered),
)
  where
    set : IntSet
    set = add (pos i) (set_of id s.served)

    completes : (n ≤ length set) ↔ IsCovered n set
    completes = covers_iff n set (add-IsIndexSet n (pos i) (set_of id s.served) lt d)

    burns : (mark_link_chunk_served io id (pos i) s).0 ≡ (m.one_time && leb n (length set))
    burns =
        burned-mark_served io s id (pos i) m e mode ∙ unfold mark_served in rw total (ground arith)
