-- ===== src/Store/Names.antt =====
-- The file names of store.go: a chunk's file has a name of its own, and no other file has it.
use bitphase_file_share.Prelude.{
  ℕ, ◌^◌, ◌<◌, ◌≡◌, refl, ◌≢◌, false, none, some, arith, text_eq, text_eq_iff, ℤ, pos,
}
use bitphase_file_share.Strconv.{itoa, cut_suffix}
use bitphase_file_share.Strconv.Decimal.{atoi-itoa, cut_suffix-append}
use bitphase_file_share.Store.Disk.{chunk_name, chunk_suffix, meta_name, meta_tmp_name}
use bitphase_file_share.Store.Load.{chunk_index}

cut_suffix-chunk_name : (i : ℤ) → cut_suffix (chunk_name i) chunk_suffix ≡ some (itoa i)
unfolding chunk_name
cut_suffix-chunk_name i = cut_suffix-append (itoa i) chunk_suffix

-- loadExisting finds the index that writeChunk put into the name.
pub chunk_index-chunk_name : (n : ℕ) → n < 2 ^ 63 → chunk_index (chunk_name (pos n)) ≡ some (pos n)
unfolding chunk_index
chunk_index-chunk_name n h = rw (cut_suffix-chunk_name (pos n), chunk_index) (atoi-itoa n h)

pub meta_tmp-ne-chunk_name : (i : ℤ) → text_eq meta_tmp_name (chunk_name i) ≡ false
meta_tmp-ne-chunk_name i =
    ground (arith, text_eq_iff meta_tmp_name (chunk_name i), cut_suffix-chunk_name i, none_of_tmp)
  where
    none_of_tmp : cut_suffix meta_tmp_name chunk_suffix ≡ none
    none_of_tmp = unfold cut_suffix in refl

pub meta-ne-chunk_name : (i : ℤ) → text_eq meta_name (chunk_name i) ≡ false
meta-ne-chunk_name i =
    ground (arith, text_eq_iff meta_name (chunk_name i), cut_suffix-chunk_name i, none_of_meta)
  where
    none_of_meta : cut_suffix meta_name chunk_suffix ≡ none
    none_of_meta = unfold cut_suffix in refl

-- Two indices of Go's `int` have two names.
pub chunk_name-injective :
    (n k : ℕ)
    → n < 2 ^ 63
    → k < 2 ^ 63
    → n ≢ k
    → text_eq (chunk_name (pos n)) (chunk_name (pos k)) ≡ false
chunk_name-injective n k p q ne = ground (
  arith,
  text_eq_iff (chunk_name (pos n)) (chunk_name (pos k)),
  chunk_index-chunk_name n p,
  chunk_index-chunk_name k q,
)
