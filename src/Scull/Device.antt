-- ===== src/Scull/Device.antt =====
-- The state of common_scull/scull.h: a list of quantum sets, each an array of pointers to quanta.
-- An `int` is its bit pattern, a number below 2 ^ 32; one from 2 ^ 31 on is negative.
use mydrivers.Prelude.{
  ℕ, ◌*◌, ◌/◌, ◌%◌, ◌^◌, Bool, true, false, ◌&&◌, Option, none, some, List, ltb, get_or,
  if◌then◌else◌,
}

-- `enum scull_type`
pub data ScullType : Type 0 where
  basic cache pages : ScullType

abbrev pub Block : Type 0
Block = List ℕ

-- `struct scull_qset`, without `next`: the nodes of a device form a list that it alone owns.
pub record Qset : Type 0 where
  pub data_ : Option (List (Option Block))

-- `struct scull_dev`, without the `cdev`, and without `sem` and `access_key`.
pub record Dev : Type 0 where
  pub nodes : List Qset
  pub quantum : ℕ
  pub qset : ℕ
  pub size : ℕ
  pub order : ℕ
  pub type_ : ScullType

-- `scull_quantum`, `scull_qset_n` and `scull_cache` (the object size of the cache, if there is one)
pub record Globals : Type 0 where
  pub quantum : ℕ
  pub qset_n : ℕ
  pub object_size : Option ℕ

abbrev pub empty_qset : Qset
empty_qset = record { data_ = none }

abbrev pub int_max : ℕ
int_max = 2 ^ 31

-- `int` from a wider integer
abbrev pub to_int : ℕ → ℕ
to_int n = n % 2 ^ 32

abbrev pub is_negative : ℕ → Bool
is_negative n = if ltb n int_max then false else true

-- Where the division by `quantum * qset` and by `quantum` is that of positive numbers. Zero traps,
-- and a negative or an overflowing product is out of the model.
unfoldable pub can_divide : ℕ → ℕ → Bool
can_divide quantum qset = ltb 0 quantum && ltb 0 qset && ltb (quantum * qset) int_max

-- `item`, `s_pos` and `q_pos` of a file position
pub record Place : Type 0 where
  pub item : ℕ
  pub s_pos : ℕ
  pub q_pos : ℕ

unfoldable pub locate : ℕ → ℕ → ℕ → Place
locate quantum qset pos = record {
  item = to_int (pos / (quantum * qset));
  s_pos = pos % (quantum * qset) / quantum;
  q_pos = pos % (quantum * qset) % quantum;
}

-- `dptr->data[s_pos]`, where a missing array holds nothing
abbrev pub quantum_of : Qset → ℕ → Option Block
quantum_of q s = elim q.data_ [ none ↦ none | some slots ↦ get_or slots s none ]

abbrev pub block_at : List Qset → ℕ → ℕ → Option Block
block_at nodes item s = quantum_of (get_or nodes item empty_qset) s

-- A hole reads as zeros.
abbrev pub byte_of : Option Block → ℕ → ℕ
byte_of none i = 0
byte_of (some b) i = get_or b i 0
