-- ===== src/Error/Display/UnitTests.antt =====
-- The unit tests of src/error.rs: what each of them asserts, as a statement on the model.
use lumberjack_protocol.Error.Display.{to_string, decimal, decimal_before, source}
use lumberjack_protocol.Error.{io, frame_too_large}
use lumberjack_protocol.Base.{◌≡◌, refl, some, codes}

abbrev IoErrorConvertsViaFrom : Type 0
IoErrorConvertsViaFrom = source (io "boom") ≡ some "boom"

io_error_converts_via_from : IoErrorConvertsViaFrom
io_error_converts_via_from = refl

abbrev DisplayFormatIncludesContext : Type 0
DisplayFormatIncludesContext =
    to_string (frame_too_large 100 10) ≡ codes "frame too large: 100 > 10"

display_format_includes_context : DisplayFormatIncludesContext
unfolding to_string decimal decimal_before
display_format_includes_context = refl
