-- ===== src/Arduino/Serial.antt =====
-- lib/arduino_stubs/src/serial_stub.cpp: the serial port of the simulator, over the standard input and output. The overloads for
-- floating point are left out; a null pointer is `none`.
pub mod Input
mod Tests
use lora_multihop.Prelude.{
  ℕ, ◌+◌, ◌^◌, Bool, true, false, Option, none, some, List, [], ◌∷◌, ◌++◌, length, ltb, u8,
  if◌then◌else◌, ◌-◌,
}
use lora_multihop.Prelude.Decimal.{decimal}

-- `started` and `inputBuffer`, and the bytes that have gone to std::cout.
pub record SerialPort : Type 0 where
  pub started : Bool
  pub input_buffer : List ℕ
  pub output : List ℕ

abbrev pub fresh_port : SerialPort
fresh_port = record { started = false; input_buffer = []; output = [] }

unfoldable pub begin : SerialPort → ℕ → SerialPort
begin s baud = record s { started = true }

unfoldable pub end : SerialPort → SerialPort
end s = record s { started = false }

unfoldable pub is_started : SerialPort → Bool
is_started s = s.started

abbrev put : SerialPort → List ℕ → SerialPort
put s bytes = record s { output = s.output ++ bytes }

-- `print` of a std::string, of a char pointer, of a character, and of an unsigned number.
unfoldable pub print_string : SerialPort → List ℕ → SerialPort
print_string s text = put s text

unfoldable pub print_chars : SerialPort → Option (List ℕ) → SerialPort
print_chars s none = s
print_chars s (some text) = put s text

unfoldable pub print_char : SerialPort → ℕ → SerialPort
print_char s c = put s (c ∷ [])

unfoldable pub print_unsigned : SerialPort → ℕ → SerialPort
print_unsigned s value = put s (decimal value)

-- `print` of a signed number of 64 bits, by its bit pattern.
unfoldable pub print_signed : SerialPort → ℕ → SerialPort
print_signed s word =
    put s (if ltb word (2 ^ 63) then decimal word else b'-' ∷ decimal (2 ^ 64 - word))

abbrev newline : ℕ
newline = 10

unfoldable pub println : SerialPort → SerialPort
println s = put s (newline ∷ [])

unfoldable pub println_string : SerialPort → List ℕ → SerialPort
println_string s text = put s (text ++ newline ∷ [])

unfoldable pub println_chars : SerialPort → Option (List ℕ) → SerialPort
println_chars s none = s
println_chars s (some text) = put s (text ++ newline ∷ [])

unfoldable pub println_char : SerialPort → ℕ → SerialPort
println_char s c = put s (c ∷ newline ∷ [])

unfoldable pub println_unsigned : SerialPort → ℕ → SerialPort
println_unsigned s value = put s (decimal value ++ newline ∷ [])

unfoldable pub println_signed : SerialPort → ℕ → SerialPort
println_signed s word =
    put s
      ((if ltb word (2 ^ 63) then decimal word else b'-' ∷ decimal (2 ^ 64 - word)) ++ newline ∷ [])

-- `write` of a byte, of a text, and of so many bytes, with the number that it returns.
unfoldable pub write_byte : SerialPort → ℕ → SerialPort × ℕ
write_byte s byte = (put s (byte ∷ []), 1)

unfoldable pub write_chars : SerialPort → Option (List ℕ) → SerialPort × ℕ
write_chars s none = (s, 0)
write_chars s (some text) = (put s text, length text)

unfoldable pub write : SerialPort → List ℕ → SerialPort × ℕ
write s bytes = (put s bytes, length bytes)

-- `pollInput`, with the bytes that std::cin has ready.
unfoldable pub poll_input : SerialPort → List ℕ → SerialPort
poll_input s ready = record s { input_buffer = s.input_buffer ++ ready }

unfoldable pub available : SerialPort → List ℕ → SerialPort × ℕ
unfolding poll_input
available s ready = let s' = poll_input s ready in (s', length s'.input_buffer)

-- The end of `read`; `none` is -1.
abbrev pub taken : SerialPort → List ℕ → SerialPort × Option ℕ
taken s [] = (s, none)
taken s (c ∷ rest) = (record s { input_buffer = rest }, some c)

unfoldable pub read : SerialPort → List ℕ → SerialPort × Option ℕ
unfolding poll_input
read s ready = let s' = poll_input s ready in taken s' s'.input_buffer

abbrev front : List ℕ → Option ℕ
front [] = none
front (c ∷ rest) = some c

unfoldable pub peek : SerialPort → List ℕ → SerialPort × Option ℕ
unfolding poll_input
peek s ready = let s' = poll_input s ready in (s', front s'.input_buffer)
