-- ===== src/Tests/Fixtures.antt =====
-- A small printer, digest and arithmetic for the tests: fractions are ten-thousandths.
use Prim.Native.String.{◌++◌ as append}
use spillover.Prelude.{
  ℕ, ◌+◌, ◌-◌, ◌*◌, ◌/◌, String, none, some, List, ltb, str_eq, if◌then◌else◌, pos, pos_part,
}
use spillover.Json.{Json, str, arr, obj, nil, cons, Fields, end, field, Message, Payload}
use spillover.Runtime.{Codec, Floats, Environ}

abbrev text_of : Json → String
text_of (str t) = t
text_of (arr (cons (str t) xs)) = t
text_of (arr (cons x xs)) = "block"
text_of _ = "-"

abbrev fields_text : Fields → String
fields_text end = ""
fields_text (field k v fs) = append (text_of v) (append ";" (fields_text fs))

abbrev print : Json → String
print (obj fs) = fields_text fs
print v = text_of v

abbrev pub codec : Codec
codec = record {
  dumps = print;
  dumps_sorted = print;
  dumps_ascii = print;
  loads = λ t. some (str t);
  to_str = print;
  sha256 = λ t. append "sha256:" t;
  sha1 = λ t. append "sha1:" t;
  lower = λ t. t;
}

abbrev pub floats : Floats
floats = record {
  Float = ℕ;
  float_of = λ t. none;
  int_of = λ t. none;
  of_int = λ n. pos_part n * 10000;
  add_f = λ a b. a + b;
  sub_f = λ a b. a - b;
  mul_f = λ a b. a * b / 10000;
  div_f = λ a b. a * 10000 / b;
  lt_f = ltb;
  trunc = λ a. pos (a / 10000);
  literal = λ t.
      if str_eq t "0.2667"
      then 2667
      else if str_eq t "0.1538"
      then 1538
      else if str_eq t "0.9"
      then 9000
      else if str_eq t "1.0"
      then 10000
      else 0;
}

abbrev pub no_env : Environ
no_env k = none

abbrev pub says : String → String → Message
says r t = record { role = some r; content = some (str t); rest = end }

abbrev pub calls_tool : Message
calls_tool = record {
  role = some "assistant";
  content = some (arr (cons (obj (field "type" (str "tool_use") end)) nil));
  rest = end;
}

abbrev pub request : List Message → Payload
request ms = record { model = some "m"; system = none; messages = ms; rest = end }
