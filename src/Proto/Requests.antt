-- ===== src/Proto/Requests.antt =====
-- The requests and the responses of proto/cache.proto, less the fields that the client neither sets nor
-- reads. An `UpdateRequest` has the fields of a `CreateRequest`.
use hurricache_cpp_client.Prelude.{ℕ, Bool, List, Option}
use hurricache_cpp_client.Types.{ContainerType}
use hurricache_cpp_client.Proto.{
  KeyMessage, OrderedKeyMessage, ValueMessage, OrderedValueMessage, HintMessage,
}

pub record GetRequest : Type 0 where
  pub key : KeyMessage

pub record ContainerGetRequest : Type 0 where
  pub key : KeyMessage
  pub element_key : KeyMessage

pub record TtlRequest : Type 0 where
  pub key : KeyMessage
  pub ttl : Option ℕ

pub record CreateRequest : Type 0 where
  pub key : KeyMessage
  pub value : ValueMessage

pub record UpdateContainerRequest : Type 0 where
  pub key : KeyMessage
  pub element_key : KeyMessage
  pub value : ValueMessage

pub record KeyPositionRequest : Type 0 where
  pub key : KeyMessage
  pub type : Option ContainerType
  pub pos : ℕ
  pub stop : Option ℕ
  pub is_reverse : Bool

pub record CreateContainerRequest : Type 0 where
  pub key : KeyMessage
  pub type : ContainerType
  pub ttl : Option ℕ
  pub key_unordered : List KeyMessage
  pub value_unordered : List ValueMessage
  pub key_ordered : List OrderedKeyMessage
  pub value_ordered : List OrderedValueMessage

pub record AddToRequest : Type 0 where
  pub key : KeyMessage
  pub type : Option ContainerType
  pub pos : Option ℕ
  pub key_unordered : List KeyMessage
  pub value_unordered : List ValueMessage
  pub key_ordered : List OrderedKeyMessage
  pub value_ordered : List OrderedValueMessage

pub record AddToValRequest : Type 0 where
  pub key : KeyMessage
  pub is_before : Bool
  pub pos : ValueMessage
  pub values : List ValueMessage

pub record RemoveFromContainerRequest : Type 0 where
  pub key : KeyMessage
  pub values : List ValueMessage
  pub keys : List KeyMessage

pub record LockRequest : Type 0 where
  pub key : KeyMessage
  pub lock_type : ℕ
  pub client_id : Option ℕ
  pub lock_duration : Option ℕ

pub record UnLockRequest : Type 0 where
  pub key : KeyMessage
  pub client_id : Option ℕ

pub record AtomicCas : Type 0 where
  pub key : KeyMessage
  pub expected : ValueMessage
  pub to_set : ValueMessage

-- `TtlResponse`, `BoolResponse`, `IntResponse`, `KeyHintResponse`, `LockResponse` and
-- `UnlockResponse` have one field that is read.
pub record TtlResponse : Type 0 where
  pub ttl : Option ℕ

pub record BoolResponse : Type 0 where
  pub value : Bool

pub record IntResponse : Type 0 where
  pub size : ℕ

pub record KeyHintResponse : Type 0 where
  pub key_hint : Option HintMessage

pub record LockResponse : Type 0 where
  pub result : ℕ

pub record ValueResponse : Type 0 where
  pub value_unordered : Option ValueMessage
  pub value_ordered : Option OrderedValueMessage

pub record UpdateValueResponse : Type 0 where
  pub value : Option ValueMessage

pub record BatchValueResponse : Type 0 where
  pub key_unordered : List KeyMessage
  pub key_ordered : List OrderedKeyMessage
  pub value_unordered : List ValueMessage
  pub value_ordered : List OrderedValueMessage

pub record AtomicCasResponse : Type 0 where
  pub result : Bool
  pub expected : Option ValueResponse
