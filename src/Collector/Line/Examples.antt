-- ===== src/Collector/Line/Examples.antt =====
-- The parser at small lines.
use srx.Prelude.{all, All, arith, ◌≡◌, refl, none, some, String, [], ◌∷◌}
use srx.Prelude.Text.{split, is_white}
use srx.Prelude.Int.{pos}
use srx.Telemetry.{finite}
use srx.Collector.{event_of}
use srx.Collector.Line.Printer.{
  Header, Element, print_line, pairs_of, IsHeader, IsElement, IsMessage, escape,
}
use srx.Collector.Line.RoundTrip.{parse_syslog_line-print_line}
use srx.Collector.Scan.{in_front, span, nonempty, span1, char_in, char_of}
use srx.Collector.Line.{
  is_black, first_part, later_part, tag_parts, is_tag, quoted, sd_param, sd_params, sd_element,
  sd_elements, joined, checked_chunks, is_nil_body, field_text, word, priority, header,
  is_broken_header, skip, is_family, is_tag_end, legacy_tag_here, legacy_tag, legacy, unescape,
  value_at, pair_at, find_pairs, assign, assign_all, read_line, parse_stripped, parse_syslog_line,
}

abbrev created : String
created =
    "<14>1 t srx RT_FLOW - RT_FLOW_CREATE [junos@2636.1 source-port=\"44\" name=\"a\\]\\\"b\"] done"

created_read :
    read_line created
    ≡ some ("RT_FLOW_CREATE", "[junos@2636.1 source-port=\"44\" name=\"a\\]\\\"b\"]")
unfolding is_black first_part later_part tag_parts is_tag quoted sd_param sd_params sd_element
    sd_elements joined checked_chunks is_nil_body field_text word priority header is_broken_header
    skip is_family is_tag_end legacy_tag_here legacy_tag legacy unescape value_at pair_at find_pairs
    assign assign_all read_line parse_stripped parse_syslog_line in_front span nonempty span1
    char_in char_of is_white split all
created_read = refl

created_pairs :
    find_pairs 0 "[junos@2636.1 source-port=\"44\" name=\"a\\]\\\"b\"]"
    ≡ (("source-port", "44") ∷ ("name", "a]\"b") ∷ [])
unfolding is_black first_part later_part tag_parts is_tag quoted sd_param sd_params sd_element
    sd_elements joined checked_chunks is_nil_body field_text word priority header is_broken_header
    skip is_family is_tag_end legacy_tag_here legacy_tag legacy unescape value_at pair_at find_pairs
    assign assign_all read_line parse_stripped parse_syslog_line in_front span nonempty span1
    char_in char_of is_white split all
created_pairs = refl

legacy_read : read_line "srx RT_IDP_ATTACK: [attack a=b]" ≡ some ("RT_IDP_ATTACK", ": [attack a=b]")
unfolding is_black first_part later_part tag_parts is_tag quoted sd_param sd_params sd_element
    sd_elements joined checked_chunks is_nil_body field_text word priority header is_broken_header
    skip is_family is_tag_end legacy_tag_here legacy_tag legacy unescape value_at pair_at find_pairs
    assign assign_all read_line parse_stripped parse_syslog_line in_front span nonempty span1
    char_in char_of is_white split all
legacy_read = refl

unquoted_pairs : find_pairs 0 ": x==y k=\"open k2=v]" ≡ (("x", "=y") ∷ ("k2", "v") ∷ [])
unfolding is_black first_part later_part tag_parts is_tag quoted sd_param sd_params sd_element
    sd_elements joined checked_chunks is_nil_body field_text word priority header is_broken_header
    skip is_family is_tag_end legacy_tag_here legacy_tag legacy unescape value_at pair_at find_pairs
    assign assign_all read_line parse_stripped parse_syslog_line in_front span nonempty span1
    char_in char_of is_white split all
unquoted_pairs = refl

broken : read_line "<14>1 RT_IDP_ATTACK: a=b" ≡ none
unfolding is_black first_part later_part tag_parts is_tag quoted sd_param sd_params sd_element
    sd_elements joined checked_chunks is_nil_body field_text word priority header is_broken_header
    skip is_family is_tag_end legacy_tag_here legacy_tag legacy unescape value_at pair_at find_pairs
    assign assign_all read_line parse_stripped parse_syslog_line in_front span nonempty span1
    char_in char_of is_white split all
broken = refl

abbrev created_header : Header
created_header = record {
  pri = "14";
  stamp = "t";
  host = "srx";
  app = "RT_FLOW";
  proc = "-";
  msgid = "RT_FLOW_CREATE";
}

abbrev created_element : Element
created_element = ("junos@2636.1", ("source-port", "44") ∷ ("name", "a]\"b") ∷ [])

created_printed : print_line created_header (created_element ∷ []) (some "done") ≡ created
created_printed = unfold escape in refl

created_IsHeader : IsHeader created_header
unfolding is_black is_white is_tag tag_parts first_part later_part split all
created_IsHeader = record {
  digits = refl;
  some_digit = refl;
  few_digits = omega arith;
  stamp_word = (refl, refl);
  host_word = (refl, refl);
  app_word = (refl, refl);
  proc_word = (refl, refl);
  msgid_word = (refl, refl);
  msgid_tag = refl;
}

created_IsElement : All IsElement (created_element ∷ [])
unfolding is_white
created_IsElement = ((refl, refl, ((refl, refl, refl), ((refl, refl, refl), tt))), tt)

done_IsMessage : IsMessage (some "done")
unfolding is_white
done_IsMessage = (refl, refl)

parse_syslog_line-print_line_example :
    parse_syslog_line
      (print_line created_header (created_element ∷ []) (some "done"))
      (finite (pos 7))
    ≡ some (
        event_of "RT_FLOW_CREATE"
          (assign_all [] (pairs_of (created_element ∷ [])))
          (finite (pos 7))
          (print_line created_header (created_element ∷ []) (some "done")))
parse_syslog_line-print_line_example =
    parse_syslog_line-print_line created_header created_element [] (some "done") created_IsHeader
      created_IsElement done_IsMessage (finite (pos 7))
