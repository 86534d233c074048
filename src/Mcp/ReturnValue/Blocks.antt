-- ===== src/Mcp/ReturnValue/Blocks.antt =====
-- The blocks of a return value (core/mcp/mcp_return_value.c).
use mlink_device.Prelude.{ℕ, ◌+◌, Option, none, some, arith}
use mlink_device.Memory.{Heap}
use mlink_device.Memory as Memory
use mlink_device.DynList.Add.{Balanced, block}
use mlink_device.DynList.Free.{free-block}
use mlink_device.Mcp.ReturnValue.{
  ReturnValue, ImageContent, bool_rv, int_rv, string_rv, json_rv, image_rv, image_content_free,
  free,
}

abbrev pub image_blocks : Option ImageContent → ℕ
image_blocks none = 0
image_blocks (some content) = block content.mime_type + block content.encoded_data + 1

abbrev pub value_blocks : ReturnValue → ℕ
value_blocks (string_rv text) = block text
value_blocks (image_rv image) = image_blocks image
value_blocks _ = 0

image_content_free-Balanced :
    (image : Option ImageContent) (h : Heap)
    → Balanced h (image_blocks image) (image_content_free image h).1 0
unfolding image_content_free
image_content_free-Balanced none h = omega arith
image_content_free-Balanced (some content) h =
    let h₁ = (Memory.free content.mime_type h).1 in
    let h₂ = (Memory.free content.encoded_data h₁).1 in
    omega (
      arith,
      free-block content.mime_type h,
      free-block content.encoded_data h₁,
      free-block (some content) h₂,
    )

pub value_free-Balanced :
    (value : ReturnValue) (h : Heap) → Balanced h (value_blocks value) (free value h).1 0
unfolding free
value_free-Balanced (bool_rv b) h = omega arith
value_free-Balanced (int_rv n) h = omega arith
value_free-Balanced (string_rv text) h = free-block text h
value_free-Balanced (json_rv json) h = omega arith
value_free-Balanced (image_rv image) h = image_content_free-Balanced image h
