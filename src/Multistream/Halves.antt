-- ===== src/Multistream/Halves.antt =====
-- vllm_ascend/multistream/ms_split.py, model_input_split_v1_mla_attn: each half is a batch of its own
-- sequences, and the halves make up the batch.
use vllm_ascend_origin.Prelude.{ℕ, ◌+◌, ◌<◌, ◌≡◌, some, List, ◌++◌, take, drop, length, sum, All}
use vllm_ascend_origin.Prelude.Int.{pos}
use vllm_ascend_origin.Prelude.Result.{Result, ok}
use vllm_ascend_origin.Multistream.{AscendMlaMetadata}
use vllm_ascend_origin.Multistream.Split.{seq_lens_of, MicroBatches, whole, halves}
use vllm_ascend_origin.Multistream.Complete.{Complete}
use vllm_ascend_origin.Multistream.Parts.{PartsOf}
use vllm_ascend_origin.Multistream.Starts.{starts_of}

-- The metadata is of the sequences with these query lengths: their tokens, slots, block tables and
-- starts.
pub record Describes (q : List ℕ) (m : AscendMlaMetadata) : Type 0 where
  pub tokens : m.num_actual_tokens ≡ pos (sum q)
  pub slots : length m.slot_mapping ≡ sum q
  pub tables : length m.block_tables ≡ length q
  pub starts : m.query_start_loc ≡ some (starts_of 0 q)

-- What the halves make up.
pub record Joined (m pre post : AscendMlaMetadata) : Type 0 where
  pub slots : pre.slot_mapping ++ post.slot_mapping ≡ m.slot_mapping
  pub tables : pre.block_tables ++ post.block_tables ≡ m.block_tables
  pub seq_lens : seq_lens_of m ≡ ok (pre.seq_lens ++ post.seq_lens)
  pub decodes : pre.num_decodes + post.num_decodes ≡ m.num_decodes
  pub decode_tokens : pre.num_decode_tokens + post.num_decode_tokens ≡ m.num_decode_tokens
  pub prefills : pre.num_prefills + post.num_prefills ≡ m.num_prefills

-- The halves are of the first k sequences and of the others.
pub record SplitAt (k : ℕ) (q : List ℕ) (m : AscendMlaMetadata)
    (r : AscendMlaMetadata × AscendMlaMetadata) : Type 0 where
  pub first : Describes (take k q) r.0
  pub second : Describes (drop k q) r.1
  pub joined : Joined m r.0 r.1
  pub parts : PartsOf k q m r.0.seq_lens r.1.seq_lens (
    record { prefill = r.0.prefill; decode = r.0.decode },
    record { prefill = r.1.prefill; decode = r.1.decode },
  )

-- The batch as it was, or a split behind the first k sequences, with some on both sides.
pub AreHalves : List ℕ → AscendMlaMetadata → MicroBatches → Type 0
AreHalves q m (whole b) = b ≡ some m
AreHalves q m (halves pre post) = (k : ℕ) × (0 < k) × (k < length q) × SplitAt k q m (pre, post)

-- A batch of decodes alone has one token for each sequence.
pub DecodesAlone : List ℕ → AscendMlaMetadata → Type 0
DecodesAlone q m = All (λ n. n ≡ 1) q × (m.num_decode_tokens ≡ length q)
