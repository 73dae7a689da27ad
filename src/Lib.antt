-- ===== src/Lib.antt =====
-- The SRX detection-probe suite: workloads generate traffic through a firewall, collectors gather the
-- telemetry it logs, a correlator decides what was observed, and a dashboard runs the workloads.
--
-- The parts and their files:
--   Prelude       lists, numbers, text, dictionaries and exceptions as Python has them.
--   Address       what ipaddress.ip_address accepts, as documented; the standard library's code is not
--                 in the repository.
--   Telemetry     validation/correlator.py: FiveTuple, Stimulus, TelemetryEvent, five_tuple_matches,
--                 observation_matches and within_window.
--   Assertions    validation/assertions.py: the predicates and the wrappers that raise.
--   Correlator    validation/correlator.py: Correlator (candidates, correlate, saw_ground_truth,
--                 evaluate, build_matrix), Verdict and CoverageMatrix.
--   Collector     collectors/syslog_collector.py: SyslogCollector as a ring buffer (add_event, clear,
--                 snapshot, query), and the loop that cuts a TCP stream into lines (_run_tcp). Collector/Line is
--                 parse_syslog_line with its regular expressions, read from left to right by
--                 the pieces of Collector/Scan; Collector/Line/Printer writes such lines. Collector/Capture is
--                 collectors/pcap_capture.py.
--   Limits        generators/load_gen.py: bounded_int and WorkloadLimits; generators/scan_gen.py: the
--                 argument builders; generators/__init__.py: require_binary.
--   Dashboard     srx-dashboard/dashboard.py. Run is the class Run; a method that holds the run's lock is
--                 one step, and play runs any sequence of steps. Registry is RUNS with the locked section of
--                 spawn_run. Catalog is WORKLOADS, and Escape, Fields and Request are validate_request.
--                 Command is make_cmd, with a reader of shell words beside it; History is
--                 parse_batch_from_lines and record_batch; Origins is allowed_origins and
--                 Handler._authorized; Handler is do_GET, do_POST and kill_run; Delivery is what
--                 do_GET writes to a stream, with sse_frame; Worker is target_thread.
--   Generators    generators/packet_gen.py (Packets), generators/l7_client.py (Client, with Http for
--                 _raw_http and Dns for _raw_dns), the stimuli of generators/scan_gen.py and
--                 generators/load_gen.py (Floods), and what the correlator makes of them (Detection).
--   Workload      deploy/srx_workload.py: validate_args, build_all_workloads, _run_workload,
--                 run_concurrently and do_all, with the lines that do_all prints in Summary; generators/load_gen.py: LoadGenerator._http_port.
--   Crawler       generators/web_crawler.py: _PageParser, fed with the tokens of a page,
--                 validate_limits and validate_path (Paths), validate_url and target_url (Url), and
--                 crawl_page (Fetch).
--   Ping          pingapp/server.py: add_to_bucket, bucket_series, day_summary, downsample_series and
--                 in_quiet_hours. Link reads the output of ping and iw, Monitor is the state of worker,
--                 record_wifi and record_wifi_error, State is load_state, and Snapshot is snapshot.
--   The children of a part hold its proofs, and its Examples the tests.
--
-- How the parts meet: the collector hands its snapshot to the correlator, which uses the
-- assertions for fields; the dashboard's validation has the same bounds as the generators'
-- WorkloadLimits; the registry holds runs. The dashboard's Command turns an accepted request into
-- the arguments of the workload CLI, whose printed summary its History reads back; Handler joins
-- the checks of a request, the registry and the command. A generator's stimulus is what the
-- correlator looks for.
--
-- Values: Python's int is an integer or a natural number where the code has checked the sign; a
-- float timestamp is a whole number of ticks, an infinity or not a number, and rounding is not
-- modelled. Text is a list of code points; upper and lower change the letters A to Z. An exception
-- is a value of Error. Loops are structural recursion; those that run on fuel (drain in Collector,
-- sd_params and sd_elements in Collector/Line, read_body in Crawler/Fetch, evict in
-- Dashboard/Registry, trim in Dashboard/History, merge_chunks in Ping) take the length of their
-- list, and each round shortens it; read_body takes one round more than the byte limit, and each
-- round adds a byte. Collector/Framing shows that the length is enough for drain,
-- Collector/Line/Elements for the elements of a line, Crawler/Fetch/Answers that the limit is
-- enough for read_body, Dashboard/Registry/Admission that it is enough for evict,
-- Dashboard/History/Entries for trim, Ping/Merging for merge_chunks.
--
-- Parameters: urlsplit, urljoin, the text of a parsed address, the response of a crawled server
-- with its reads, the codecs and the reader of HTML, each of which may raise, what a workload does
-- and the order in which results come in, the operations on floats in Ping and the reading of
-- floats from text, what record_batch of the dashboard returns or raises to finish, the id of a
-- new run, what the libraries make of a request (urlparse, parse_qs, json.loads, the headers) and
-- of an address, what sockets and processes do, and the search for a binary on the PATH.
--
-- Not modelled: sockets, processes, signals, files and HTML; argparse; how the crawler connects,
-- the search for a charset in HTML and the decoding of bytes; the browser generator; the parsers
-- of wrk and iperf3 output; the queries of the firewall, which only hand on what PyEZ returns. A
-- regular expression that says \d is read with the ASCII digits.
pub mod Prelude
pub mod Address
pub mod Telemetry
pub mod Assertions
pub mod Correlator
pub mod Collector
pub mod Generators
pub mod Limits
pub mod Dashboard
pub mod Ping
pub mod Workload
pub mod Crawler
