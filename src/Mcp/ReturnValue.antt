-- ===== src/Mcp/ReturnValue.antt =====
-- core/mcp/mcp_return_value.c: what a tool's callback returns, and the content it is sent as.
pub mod Blocks
pub mod Granting
use mlink_device.Prelude.{Bool, false, Option, none, some, [], ◌∷◌, if◌then◌else◌, take}
use mlink_device.Prelude.Int.{ℤ}
use mlink_device.Prelude.Bytes.{Bytes, bytes}
use mlink_device.Memory.{M, pure, ◌>>=◌, ◌>>◌, strdup}
use mlink_device.Memory as Memory
use mlink_device.Json.{Json, bool, str, object, array, Env}
use mlink_device.Mcp.Property.{or_empty}

pub record ImageContent : Type 0 where
  pub mime_type : Option Bytes
  pub encoded_data : Option Bytes

-- The tag with the member of the union that belongs to it.
pub data ReturnValue : Type 0 where
  bool_rv : Bool → ReturnValue
  int_rv : ℤ → ReturnValue
  string_rv : Option Bytes → ReturnValue
  json_rv : Option Json → ReturnValue
  image_rv : Option ImageContent → ReturnValue

-- `mcp_return_bool` and the others that take the value as it is: JSON and images go over to the
-- return value.
unfoldable pub return_bool : Bool → ReturnValue
return_bool value = bool_rv value

unfoldable pub return_int : ℤ → ReturnValue
return_int value = int_rv value

unfoldable pub return_json : Option Json → ReturnValue
return_json json = json_rv json

unfoldable pub return_image : Option ImageContent → ReturnValue
return_image image = image_rv image

-- `mcp_return_string`: a copy of the text, the empty one for NULL.
unfoldable pub return_string : Option Bytes → M ReturnValue
return_string value = do copied ← strdup (some (or_empty value)); pure (string_rv copied)

unfoldable pub image_content_free : Option ImageContent → M (Unit {0})
image_content_free none = pure tt
image_content_free (some content) = do
  Memory.free content.mime_type
  Memory.free content.encoded_data
  Memory.free (some content)

-- The value left behind is a NULL string. The items of a JSON value are cJSON's to give back.
unfoldable pub free : ReturnValue → M ReturnValue
unfolding image_content_free
free (string_rv text) = do Memory.free text; pure (string_rv none)
free (image_rv image) = do image_content_free image; pure (string_rv none)
free value = pure (string_rv none)

abbrev pub text_entry : Bytes → Json
text_entry text = object ((bytes "type", str (bytes "text")) ∷ (bytes "text", str text) ∷ [])

-- The entry for a value in the `content` array. "%d" goes through a buffer of 16 bytes.
unfoldable pub entry : Env → ReturnValue → Json
entry e (bool_rv b) = text_entry (if b then bytes "true" else bytes "false")
entry e (int_rv n) = text_entry (take 15 (e.decimal n))
entry e (string_rv text) = text_entry (or_empty text)
entry e (json_rv none) = text_entry []
entry e (json_rv (some json)) = text_entry (or_empty (e.print json))
entry e (image_rv none) = object ((bytes "type", str (bytes "image")) ∷ [])
entry e (image_rv (some image)) =
    object (
      (bytes "type", str (bytes "image")) ∷ (bytes "image", str (or_empty image.encoded_data)) ∷ [])

unfoldable pub content_document : Env → ReturnValue → Json
content_document e value =
    object ((bytes "content", array (entry e value ∷ [])) ∷ (bytes "isError", bool false) ∷ [])

unfoldable pub build_content : Env → ReturnValue → Option Bytes
build_content e value = e.print (content_document e value)
