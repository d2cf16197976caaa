-- ===== src/Values.antt =====
-- The types of the `muna` crate that serving/batch.rs and serving/dispatch use: the fields and
-- constructors that those files name. `J` is the type of the crate's JSON values, left open.
use muna_server.Base.{ℕ, Bool, List, Text, Option, ℤ}

-- The element vectors of a tensor, by element type; an element is its bit pattern.
pub data TensorData : Type 0 where
  float32 float64 int8 int16 int32 int64 uint8 uint16 uint32 uint64 : List ℕ → TensorData
  complex64 complex128 bools : List ℕ → TensorData

-- `shape` is a `Vec<i32>`.
pub record Tensor : Type 0 where
  pub elements : TensorData
  pub shape : List ℤ

-- `float` and `double` hold the bits of the number. The crate's
-- images, maps of arrays and lists of images are numbers: the server never looks into them.
pub data Value (J : Type 0) : Type 0 where
  null : Value J
  string : Text → Value J
  float double : ℕ → Value J
  int long : ℤ → Value J
  bool : Bool → Value J
  list : List J → Value J
  dict : J → Value J
  tensor : Tensor → Value J
  image array_list image_list : ℕ → Value J
  binary : List ℕ → Value J

pub data BatchMode : Type 0 where
  static_batch dynamic_batch continuous_batch : BatchMode

pub record BatchConfig : Type 0 where
  pub mode : BatchMode
  pub capacity : Option ℕ

pub record Parameter : Type 0 where
  pub name : Text
  pub batch : Option BatchConfig

pub record Signature : Type 0 where
  pub inputs : List Parameter
