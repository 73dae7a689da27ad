-- ===== src/Collector/Capture/Examples.antt =====
-- The readers at a small capture.
use srx.Prelude.{◌≡◌, refl, false, some, [], ◌∷◌, map, All, arith, all, ok}
use srx.Prelude.Text.{is_white, split, ascii, decimal, digits_from}
use native.Mathlib.Decide.{dec_lt}
use srx.Address.{is_ipv4}
use srx.Collector.Capture.{
  Packet, tcp, neither, extract_with_tshark, extract_with_scapy, PcapCapture, build_cmd,
  require_binary, filter_args, base_args,
}
use srx.Collector.Capture.Tools.{IsPacket, print_rows, extract_with_tshark-print_rows}

abbrev web : Packet
web = record { src = "198.51.100.5"; dst = "203.0.113.10"; proto = 6; transport = tcp 44321 80 }

abbrev ping : Packet
ping = record { src = "198.51.100.5"; dst = "203.0.113.10"; proto = 1; transport = neither }

capture_IsPacket : All IsPacket (web ∷ ping ∷ [])
unfolding is_ipv4 all split is_white
capture_IsPacket = (
  record {
    src_ipv4 = refl;
    dst_ipv4 = refl;
    src_plain = refl;
    dst_plain = refl;
    known = omega arith;
  },
  (
    record {
      src_ipv4 = refl;
      dst_ipv4 = refl;
      src_plain = refl;
      dst_plain = refl;
      known = omega arith;
    },
    tt,
  ),
)

extract_with_tshark-print_rows_example :
    extract_with_tshark (print_rows (web ∷ ping ∷ []))
    ≡ extract_with_scapy (map some (web ∷ ping ∷ []))
extract_with_tshark-print_rows_example =
    extract_with_tshark-print_rows (web ∷ ping ∷ []) capture_IsPacket

abbrev egress : PcapCapture
egress = record {
  interface = "eth1";
  output_path = "egress.pcap";
  tool = "tshark";
  bpf_filter = some "host 203.0.113.10";
  snaplen = 256;
  has_process = false;
}

tshark_cmd :
    build_cmd (λ name. some name) egress
    ≡ ok (
        "tshark" ∷ "-i" ∷ "eth1" ∷ "-w" ∷ "egress.pcap" ∷ "-s" ∷ "256" ∷ "-f" ∷ "host 203.0.113.10"
        ∷ [])
unfolding build_cmd require_binary base_args filter_args decimal digits_from ascii dec_lt
tshark_cmd = refl
