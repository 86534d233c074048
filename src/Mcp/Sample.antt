-- ===== src/Mcp/Sample.antt =====
-- A server of core/mcp with one tool, which takes one number, for the tests.
use mlink_device.Prelude.{
  refl, true, false, Option, none, some, [], ◌∷◌, ◌==◌, if◌then◌else◌, arith,
}
use mlink_device.Prelude.Int.{ℤ, pos}
use mlink_device.Prelude.Bytes.{Bytes, bytes, strcmp_eq}
use mlink_device.Memory.{Heap}
use mlink_device.DynList.{DynList}
use mlink_device.DynList.Contents.{IsValid}
use mlink_device.DynList.Add.{Fits}
use mlink_device.Json.{Json, null, bool, num, str, obj, Fields, end, field, object, Env, EnvLaws}
use mlink_device.Mcp.Property.{Property, integer, int_value}
use mlink_device.Mcp.PropertyList.{sizeof_property}
use mlink_device.Mcp.PropertyList.{PropertyList}
use mlink_device.Mcp.Tool.{Tool}
use mlink_device.Mcp.Server.{Server, tool_name_hash, find_in}
use mlink_device.Mcp.Server.Registry.{IsConsistent}

abbrev pub no_cursor : Bytes
no_cursor = []

abbrev pub heap : Heap
heap = record { grant = λ n. true; next = 0; allocs = 0; frees = 0 }

abbrev pub lookup : Fields → Bytes → Option Json
lookup end key = none
lookup (field k j fs) key = if strcmp_eq k key then some j else lookup fs key

abbrev pub item : Json → Bytes → Option Json
item (obj fs) key = lookup fs key
item _ key = none

abbrev pub number : Json → ℤ
number (num n) = n
number (bool b) = if b then pos 1 else pos 0
number _ = pos 0

abbrev pub env : Env
env = record {
  parse = λ text. some null;
  print = λ json. some (bytes "{}");
  get_item = item;
  valueint = number;
  decimal = λ n. bytes "0";
}

pub env-EnvLaws : EnvLaws env
env-EnvLaws = record { valueint_num = λ n. refl }

abbrev pub speed : Property
speed = record {
  name = some (bytes "speed");
  type = integer;
  has_default = false;
  has_min = true;
  has_max = true;
  min_value = pos 0;
  max_value = pos 9;
  value = int_value (pos 0);
}

abbrev pub speeds : PropertyList
speeds = record {
  items = some (some speed ∷ none ∷ none ∷ none ∷ []);
  count = 1;
  capacity = 4;
  item_size = sizeof_property;
}

pub speeds-IsValid : IsValid speeds
speeds-IsValid = omega arith

pub speeds-Fits : Fits speeds
speeds-Fits = record { sized = omega arith; small = omega arith }

abbrev pub drive : Tool
drive = record {
  name = bytes "drive";
  description = bytes "";
  properties = speeds;
  callback = none;
  user_only = false;
}

abbrev pub stop : Tool
stop = record drive { name = bytes "stop" }

abbrev pub empty_list : DynList Tool
empty_list = record { items = none; count = 0; capacity = 0; item_size = 8 }

abbrev pub server : Server
server = record {
  tools = empty_list;
  server_name = bytes "mlink";
  has_callback = false;
  has_transport = true;
  tool_hash = λ hash. [];
  has_worker = false;
}

abbrev pub hashed : Server
hashed = record server {
  tools = record {
    items = some (some drive ∷ none ∷ none ∷ none ∷ []);
    count = 1;
    capacity = 4;
    item_size = 8;
  };
  tool_hash = λ hash. if tool_name_hash (bytes "drive") == hash then drive ∷ [] else [];
}

pub hashed-IsConsistent : IsConsistent hashed
unfolding find_in
hashed-IsConsistent = record { listed = omega arith; hashed = λ hash. refl; distinct = (refl, tt) }

pub hashed-Fits : Fits hashed.tools
hashed-Fits = record { sized = omega arith; small = omega arith }

abbrev pub ping : Json
ping = object (
    (bytes "jsonrpc", str (bytes "2.0"))
    ∷ (bytes "method", str (bytes "ping"))
    ∷ (bytes "id", num (pos 3))
    ∷ [])

abbrev pub arguments : Option Json
arguments = some (object ((bytes "speed", num (pos 4)) ∷ []))
