-- ===== src/StringArray.antt =====
-- utils.c, lines 28-59: the growing array of key masks (utils.h, lines 13-17).
pub mod Growth
pub mod First
use redis_keyspace_amqp.Base.{
  ℕ, suc, ◌+◌, ◌*◌, ◌%◌, Bool, List, [], ◌∷◌, ◌++◌, Bytes, c_str, leb, if◌then◌else◌, Option, none,
  some, get_elem?,
}
use redis_keyspace_amqp.Memory.{
  Outcome, done, fault, ◌>>=◌, ◌>>◌, Allocator, ptr_size, u32_mod, u64_mod, check,
}

-- `cells` are the strings that `data[0] … data[size - 1]` point to, `block` the bytes behind `data`.
pub record StringArray : Type 0 where
  pub size : ℕ
  pub capacity : ℕ
  pub block : ℕ
  pub cells : List Bytes

-- line 32 asks for `capacity` bytes, not for `capacity` pointers
unfoldable pub init : Allocator → ℕ → ℕ → StringArray
init al size capacity = record {
  size = size;
  capacity = capacity;
  block = al.usable capacity;
  cells = [];
}

-- lines 36-39
unfoldable pub grow : Allocator → StringArray → StringArray
grow al arr =
    if leb arr.capacity arr.size
    then record arr {
      block = al.usable ((arr.capacity * ptr_size * 2) % u64_mod);
      capacity = (arr.capacity * 2) % u32_mod;
    }
    else arr

-- lines 40-42: the pointer store at `data[size]` has to lie in the block
unfoldable pub store : Bytes → StringArray → Outcome StringArray
store value arr = do
  check (ptr_size * suc arr.size) arr.block
  done (record arr { size = (arr.size + 1) % u32_mod; cells = arr.cells ++ c_str value ∷ [] })

unfoldable pub add : Allocator → Bytes → StringArray → Outcome StringArray
unfolding grow store
add al value arr = store value (grow al arr)

unfoldable pub clean : StringArray → StringArray
clean arr = record arr { size = 0; cells = [] }

unfoldable pub get_length : StringArray → ℕ
get_length arr = arr.size

unfoldable pub get_element : StringArray → ℕ → Option Bytes
get_element arr index = get_elem? arr.cells index
