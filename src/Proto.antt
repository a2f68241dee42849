-- ===== src/Proto.antt =====
-- The messages of proto/cache.proto that the client builds and reads, field for field.
-- A field that the schema marks `optional`, or that is a message, is an `Option`; a scalar with no
-- mark has its default 0. A Cord is the list of its chunks.
pub mod Requests
use hurricache_cpp_client.Prelude.{ℕ, Bool, List, Option}
use hurricache_cpp_client.Prelude.Int.{ℤ}

abbrev pub Cord : Type 0
Cord = List (List ℕ)

-- The oneof `data` of a BinaryPayload.
pub data DataCase : Type 0 where
  not_set : DataCase
  payload : Cord → DataCase
  int_payload : ℤ → DataCase
  double_payload : ℕ → DataCase

pub record BinaryPayload : Type 0 where
  pub content : DataCase
  pub size : ℕ

pub record KeyBinaryPayload : Type 0 where
  pub payload : List ℕ
  pub size : ℕ

pub record HintMessage : Type 0 where
  pub weak_hash : Option ℕ
  pub strong_hash : Option ℕ

pub record CompressedInfo : Type 0 where
  pub enabled : Bool
  pub raw_size : Option ℕ

pub record KeyMessage : Type 0 where
  pub payload : Option KeyBinaryPayload
  pub compression_info : Option CompressedInfo
  pub key_hint : Option HintMessage
  pub client_id : Option ℕ

pub record OrderedKeyMessage : Type 0 where
  pub payload : Option KeyBinaryPayload
  pub order : Option ℕ
  pub compression_info : Option CompressedInfo
  pub key_hint : Option HintMessage
  pub client_id : Option ℕ

pub data ValueType : Type 0 where
  auto bytes int double : ValueType

pub record LockInfo : Type 0 where
  pub lock_type : ℕ
  pub locked_by : Option ℕ
  pub locked_till : Option ℕ

pub record ValueMessage : Type 0 where
  pub value : Option BinaryPayload
  pub compression_info : Option CompressedInfo
  pub ttl : Option ℕ
  pub lock_info : Option LockInfo
  pub value_type : Option ValueType

pub record OrderedValueMessage : Type 0 where
  pub value : Option BinaryPayload
  pub order : Option ℕ
  pub compression_info : Option CompressedInfo
  pub ttl : Option ℕ
  pub lock_info : Option LockInfo
  pub value_type : Option ValueType
