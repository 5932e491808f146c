-- ===== src/Converter.antt =====
-- The converters of CChannel.cpp: `CConversionFactory`, and the calls of the virtual members of
-- `CConverter`, dispatched on the class.
pub mod Loop
pub mod StringConverter
pub mod IntegerConverter
pub mod FloatConverter
pub mod EnumConverter
pub mod Vectors
pub mod Labels
pub mod Words
use epics_tcl.Prelude.{String, List, [], ◌≡◌}
use epics_tcl.Ca.{FieldType, RequestType, EventArgs, Platform}

-- A converter object: its class, and the state of the one class that has any.
pub data Converter : Type 0 where
  string integer float : Converter
  enum : List String → Converter

-- `CConversionFactory::Converter`.
unfoldable pub converter : FieldType → Converter
converter FieldType.string = string
converter FieldType.char = integer
converter FieldType.short = integer
converter FieldType.long = integer
converter FieldType.enum = enum []
converter FieldType.float = float
converter FieldType.double = float
converter FieldType.other = string

unfoldable pub request_type : Converter → RequestType
unfolding StringConverter.request_type IntegerConverter.request_type FloatConverter.request_type
    EnumConverter.request_type
request_type string = StringConverter.request_type
request_type integer = IntegerConverter.request_type
request_type float = FloatConverter.request_type
request_type (enum allowed) = EnumConverter.request_type

-- `(*converter)(args)`: the converter afterwards, and the text.
unfoldable pub call : Platform → Converter → EventArgs → Converter × String
unfolding StringConverter.call IntegerConverter.call FloatConverter.call EnumConverter.call
call p string args = (string, StringConverter.call args)
call p integer args = (integer, IntegerConverter.call p args)
call p float args = (float, FloatConverter.call p args)
call p (enum allowed) args = let (known, s) = EnumConverter.call allowed args in (enum known, s)

unfoldable pub allowed_values : Converter → List String
unfolding StringConverter.allowed_values IntegerConverter.allowed_values
    FloatConverter.allowed_values EnumConverter.allowed_values
allowed_values string = StringConverter.allowed_values
allowed_values integer = IntegerConverter.allowed_values
allowed_values float = FloatConverter.allowed_values
allowed_values (enum allowed) = EnumConverter.allowed_values allowed

unfoldable pub get_vector : Platform → Converter → EventArgs → Converter × List String
unfolding StringConverter.get_vector IntegerConverter.get_vector FloatConverter.get_vector
    EnumConverter.get_vector
get_vector p string args = (string, StringConverter.get_vector args)
get_vector p integer args = (integer, IntegerConverter.get_vector p args)
get_vector p float args = (float, FloatConverter.get_vector p args)
get_vector p (enum allowed) args =
    let (known, ss) = EnumConverter.get_vector allowed args in (enum known, ss)
