-- ===== src/Collector/Line/Printer.antt =====
-- Structured lines as RFC5424 writes them: a header, elements of escaped parameters, and free text.
use Prim.Native.Char.{code}
use srx.Prelude.{
  ℕ, ◌≤◌, ◌≡◌, Bool, true, false, not, ◌||◌, Option, none, some, String, List, [], ◌∷◌, nat_eq, All,
  if◌then◌else◌,
}
use srx.Prelude.Text.{is_digit, is_white}
use srx.Collector.{Pairs}
use srx.Collector.Scan.{size, is_empty, all_chars, ◌++◌}
use srx.Collector.Line.{is_black, is_key, in_sd_id, is_tag}

abbrev pub is_special : ℕ → Bool
is_special c = nat_eq c b'"' || (nat_eq c b'\\' || nat_eq c b']')

unfoldable pub escape : String → String
escape String.[] = String.[]
escape (String.◌∷◌ c v) =
    if is_special (code c) then "\\" ++ String.◌∷◌ c (escape v) else String.◌∷◌ c (escape v)

-- The parameters of an element, its bracket and what follows.
abbrev pub print_params : Pairs → String → String
print_params [] rest = "]" ++ rest
print_params ((k, v) ∷ ps) rest =
    " " ++ (k ++ ("=\"" ++ (escape v ++ ("\"" ++ print_params ps rest))))

abbrev pub Element : Type 0
Element = String × Pairs

abbrev pub print_element : Element → String → String
print_element (id, ps) rest = "[" ++ (id ++ print_params ps rest)

abbrev pub print_elements : List Element → String → String
print_elements [] rest = rest
print_elements (e ∷ es) rest = print_element e (print_elements es rest)

pub record Header : Type 0 where
  pub pri : String
  pub stamp : String
  pub host : String
  pub app : String
  pub proc : String
  pub msgid : String

abbrev pub print_header : Header → String → String
print_header h body =
    "<"
    ++ (h.pri
        ++ (">1 "
            ++ (h.stamp
                ++ (" "
                    ++ (h.host
                        ++ (" "
                            ++ (h.app
                                ++ (" " ++ (h.proc ++ (" " ++ (h.msgid ++ (" " ++ body))))))))))))

-- The free text at the end.
abbrev pub print_message : Option String → String
print_message none = ""
print_message (some m) = " " ++ m

abbrev pub print_line : Header → List Element → Option String → String
print_line h es message = print_header h (print_elements es (print_message message))

abbrev pub IsWord : String → Type 0
IsWord s = (is_empty s ≡ false) × (all_chars is_black s ≡ true)

pub record IsHeader (h : Header) : Type 0 where
  pub digits : all_chars is_digit h.pri ≡ true
  pub some_digit : is_empty h.pri ≡ false
  pub few_digits : size h.pri ≤ 3
  pub stamp_word : IsWord h.stamp
  pub host_word : IsWord h.host
  pub app_word : IsWord h.app
  pub proc_word : IsWord h.proc
  pub msgid_word : IsWord h.msgid
  pub msgid_tag : is_tag h.msgid ≡ true

abbrev pub no_newline : ℕ → Bool
no_newline c = not (nat_eq c 10)

abbrev pub IsPair : String × String → Type 0
IsPair (k, v) = (is_empty k ≡ false) × (all_chars is_key k ≡ true) × (all_chars no_newline v ≡ true)

abbrev pub IsElement : Element → Type 0
IsElement (id, ps) = (is_empty id ≡ false) × (all_chars in_sd_id id ≡ true) × All IsPair ps

abbrev pub ends_black : String → Bool
ends_black String.[] = false
ends_black (String.◌∷◌ c String.[]) = not (is_white (code c))
ends_black (String.◌∷◌ c (String.◌∷◌ d s)) = ends_black (String.◌∷◌ d s)

-- Free text is one line with no blank at its end.
abbrev pub IsMessage : Option String → Type 0
IsMessage none = Unit
IsMessage (some m) = (all_chars no_newline m ≡ true) × (ends_black m ≡ true)

abbrev pub more_pairs : Pairs → Pairs → Pairs
more_pairs [] rest = rest
more_pairs (p ∷ ps) rest = p ∷ more_pairs ps rest

abbrev pub pairs_of : List Element → Pairs
pairs_of [] = []
pairs_of ((id, ps) ∷ es) = more_pairs ps (pairs_of es)
