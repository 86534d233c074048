-- ===== src/Mcp/ReturnValue/Granting.antt =====
-- Giving back a return value (core/mcp/mcp_return_value.c) leaves the allocator's answers to later
-- requests as they are.
use mlink_device.Prelude.{◌∙◌, refl, Option, none, some}
use mlink_device.Memory.Granting.{KeepsGrant, free-KeepsGrant}
use mlink_device.Mcp.ReturnValue.{
  ReturnValue, ImageContent, bool_rv, int_rv, string_rv, json_rv, image_rv, image_content_free,
  free,
}

image_content_free-KeepsGrant :
    (image : Option ImageContent) → KeepsGrant (image_content_free image)
unfolding image_content_free
image_content_free-KeepsGrant none h = refl
image_content_free-KeepsGrant (some content) h =
    free-KeepsGrant (some content) _
    ∙ free-KeepsGrant content.encoded_data _
    ∙ free-KeepsGrant content.mime_type h

pub value_free-KeepsGrant : (value : ReturnValue) → KeepsGrant (free value)
unfolding free
value_free-KeepsGrant (bool_rv b) h = refl
value_free-KeepsGrant (int_rv n) h = refl
value_free-KeepsGrant (string_rv text) h = free-KeepsGrant text h
value_free-KeepsGrant (json_rv json) h = refl
value_free-KeepsGrant (image_rv image) h = image_content_free-KeepsGrant image h
