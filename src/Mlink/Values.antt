-- ===== src/Mlink/Values.antt =====
-- The return values of the public interface (core/mlink.c, include/mlink.h), which are cast to those of
-- core/mcp and back: the two structs have the same members, and the two enums the same numbers.
use mlink_device.Prelude.{ℕ, ◌≡◌, refl, Bool, Option, none}
use mlink_device.Prelude.Int.{ℤ}
use mlink_device.Prelude.Bytes.{Bytes}
use mlink_device.Memory.{Heap, M, pure, ◌>>=◌}
use mlink_device.DynList.Add.{Balanced}
use mlink_device.DynList.Free.{free-block}
use mlink_device.Json.{Json}
use mlink_device.Mcp.ReturnValue.{
  ImageContent, ReturnValue, bool_rv, int_rv, string_rv, json_rv, image_rv,
}
use mlink_device.Mcp.ReturnValue as ReturnValue
use mlink_device.Mcp.ReturnValue.Blocks.{value_blocks, value_free-Balanced}

-- `struct mlink_return_value`.
pub data MlinkReturnValue : Type 0 where
  mlink_bool : Bool → MlinkReturnValue
  mlink_int : ℤ → MlinkReturnValue
  mlink_string : Option Bytes → MlinkReturnValue
  mlink_json : Option Json → MlinkReturnValue
  mlink_image : Option ImageContent → MlinkReturnValue

-- The numbers of `enum mlink_return_type` and of `enum mcp_return_type`.
abbrev pub mlink_type : MlinkReturnValue → ℕ
mlink_type (mlink_bool b) = 0
mlink_type (mlink_int n) = 1
mlink_type (mlink_string text) = 2
mlink_type (mlink_json json) = 3
mlink_type (mlink_image image) = 4

abbrev pub mcp_type : ReturnValue → ℕ
mcp_type (bool_rv b) = 0
mcp_type (int_rv n) = 1
mcp_type (string_rv text) = 2
mcp_type (json_rv json) = 3
mcp_type (image_rv image) = 4

unfoldable pub to_mcp : MlinkReturnValue → ReturnValue
to_mcp (mlink_bool b) = bool_rv b
to_mcp (mlink_int n) = int_rv n
to_mcp (mlink_string text) = string_rv text
to_mcp (mlink_json json) = json_rv json
to_mcp (mlink_image image) = image_rv image

unfoldable pub from_mcp : ReturnValue → MlinkReturnValue
from_mcp (bool_rv b) = mlink_bool b
from_mcp (int_rv n) = mlink_int n
from_mcp (string_rv text) = mlink_string text
from_mcp (json_rv json) = mlink_json json
from_mcp (image_rv image) = mlink_image image

unfoldable pub return_bool : Bool → MlinkReturnValue
return_bool value = from_mcp (ReturnValue.return_bool value)

unfoldable pub return_int : ℤ → MlinkReturnValue
return_int value = from_mcp (ReturnValue.return_int value)

unfoldable pub return_string : Option Bytes → M MlinkReturnValue
return_string value = do made ← ReturnValue.return_string value; pure (from_mcp made)

unfoldable pub return_json : Option Json → MlinkReturnValue
return_json json = from_mcp (ReturnValue.return_json json)

unfoldable pub return_image : Option ImageContent → MlinkReturnValue
return_image image = from_mcp (ReturnValue.return_image image)

-- What is left in the caller's value.
unfoldable pub free : MlinkReturnValue → M MlinkReturnValue
free value = do left ← ReturnValue.free (to_mcp value); pure (from_mcp left)

unfoldable pub image_content_free : Option ImageContent → M (Unit {0})
image_content_free content = ReturnValue.image_content_free content

-- A cast keeps the number of the type, and the way back keeps the value.
to_mcp-type : (value : MlinkReturnValue) → mcp_type (to_mcp value) ≡ mlink_type value
unfolding to_mcp
to_mcp-type (mlink_bool b) = refl
to_mcp-type (mlink_int n) = refl
to_mcp-type (mlink_string text) = refl
to_mcp-type (mlink_json json) = refl
to_mcp-type (mlink_image image) = refl

from_mcp-to_mcp : (value : MlinkReturnValue) → from_mcp (to_mcp value) ≡ value
unfolding to_mcp from_mcp
from_mcp-to_mcp (mlink_bool b) = refl
from_mcp-to_mcp (mlink_int n) = refl
from_mcp-to_mcp (mlink_string text) = refl
from_mcp-to_mcp (mlink_json json) = refl
from_mcp-to_mcp (mlink_image image) = refl

-- The blocks of the value are given back, and freeing what is left of it gives back nothing more.
pub free-free :
    (value : MlinkReturnValue) (h later : Heap)
    → Balanced h (value_blocks (to_mcp value)) (free value h).1 0
      × Balanced later 0 (free (free value h).0 later).1 0
unfolding free to_mcp from_mcp ReturnValue.free
free-free value h later = (value_free-Balanced (to_mcp value) h, second value)
  where
    second : (v : MlinkReturnValue) → Balanced later 0 (free (free v h).0 later).1 0
    second (mlink_bool b) = free-block {B = Bytes} none later
    second (mlink_int n) = free-block {B = Bytes} none later
    second (mlink_string text) = free-block {B = Bytes} none later
    second (mlink_json json) = free-block {B = Bytes} none later
    second (mlink_image image) = free-block {B = Bytes} none later
