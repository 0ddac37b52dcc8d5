-- ===== src/Tests/Webs.antt =====
-- The theorems on the web server and the dispatcher at concrete requests.
use npupnp.Common.{
  ℕ, ◌≡◌, ◌≤◌, ◌+◌, refl, ◌⊎◌, true, false, Option, none, some, List, [], ◌∷◌, ◌==◌, if◌then◌else◌,
  Bytes, codes, equal, to_lower, pos, arith,
}
use npupnp.Uri.HostPort.{Resolver, af_inet}
use npupnp.HttpUtils.Headers.{find_header}
use npupnp.HttpUtils.Quote.{xml_quote, unquote, unquote-xml_quote}
use npupnp.HttpUtils.Methods.{httpmethod_get}
use npupnp.NetIf.{Interface, ipv4, interface_for_address4}
use npupnp.NetIf.Subnet.{Outcome, interface_for_address4-Outcome}
use npupnp.Uri.Escape.{remove_escaped_chars}
use npupnp.Uri.Dots.{remove_dots}
use npupnp.WebServer.{
  WebServer, web_server_add_virtual_dir, web_server_remove_virtual_dir, dir_path, upnp_e_success,
  is_file_in_virtual_dir, find_doc,
}
use npupnp.WebServer.Dirs.{web_server_remove_virtual_dir-add}
use npupnp.WebServer.Plan.{
  Transaction, Plan, process_request, plans, process_doc, answer_headers, sized,
}
use npupnp.WebServer.Sources.{Host, Stat, resp_filedoc, source_of, get_file_info, request_doc}
use npupnp.WebServer.Paths.Rebuilt.{IsUnder}
use npupnp.WebServer.Paths.Root.{process_request-IsUnder}
use npupnp.WebServer.Ranges.{process_request-InData}
use npupnp.Dispatcher.{collect}
use npupnp.Dispatcher.Hosts.{Setup}
use npupnp.Dispatcher.Answer.{Opening, Callbacks, answer_to_connection, new_request}
use npupnp.Dispatcher.Checked.{IsValidated, answer_to_connection-IsValidated}
use npupnp.Dispatcher.Fields.{find_header-collect}
use npupnp.Dispatcher.Ports.{BindResult, bound, eaddrinuse, available_port}

abbrev file_stat : Bytes → Option Stat
file_stat name =
    if equal name (codes "/srv/b.txt")
    then some (record { size = 10; mtime = 0; directory = false; readable = true })
    else none

abbrev host : Host
host = record {
  stat = file_stat;
  get_info = λ path cookie. none;
  parse_http_ranges = λ value. some ((some 4, some 20) ∷ []);
  make_date_string = λ t. [];
}

abbrev server : WebServer
server = record {
  document_root_dir = codes "/srv";
  cors_string = [];
  local_docs = [];
  virtual_dir_list = [];
}

abbrev transaction : Transaction
transaction = record {
  method = httpmethod_get;
  url = codes "/a/../b.txt";
  headers = (codes "range", codes "bytes=4-20") ∷ [];
  query_values = [];
}

abbrev plan : Plan
plan = record {
  rtype = resp_filedoc;
  headers =
      (codes "x-user-agent", codes "redsonic") ∷ (codes "content-type", codes "text/plain") ∷ [];
  filename = codes "/srv/b.txt";
  instruction = record {
    offset = 4;
    read_send_size = pos 6;
    is_partial = true;
    total_size = pos 10;
    cookie = 0;
    content = [];
    request_cookie = 0;
  };
}

served : process_request host server 0 transaction ≡ plans plan
unfolding process_request find_header request_doc remove_dots remove_escaped_chars process_doc
    source_of is_file_in_virtual_dir find_doc get_file_info answer_headers sized
served = refl

process_request-IsUnder_example : IsUnder (codes "/srv") (codes "/srv/b.txt")
unfolding remove_escaped_chars
process_request-IsUnder_example =
    process_request-IsUnder host server 0 transaction plan refl refl served refl

process_request-InData_example : 4 + 6 ≤ 10
process_request-InData_example =
    process_request-InData host server 0 transaction plan 10 served refl (omega arith)

web_server_remove_virtual_dir-add_example :
    web_server_remove_virtual_dir
      (dir_path (codes "media"))
      (web_server_add_virtual_dir (codes "media") 7 server).0
    ≡ (server, upnp_e_success)
web_server_remove_virtual_dir-add_example =
    web_server_remove_virtual_dir-add (codes "media") 7 server refl refl

unquote-xml_quote_example : unquote 4 (xml_quote (codes "<a>&")) ≡ codes "<a>&"
unquote-xml_quote_example = unquote-xml_quote (codes "<a>&")

abbrev lan : Interface
lan = record {
  flags = 1;
  name = codes "eth0";
  friendlyname = [];
  index = pos 2;
  addresses = (ipv4 (192 ∷ 168 ∷ 1 ∷ 1 ∷ []), ipv4 (255 ∷ 255 ∷ 255 ∷ 0 ∷ [])) ∷ [];
}

interface_for_address4-Outcome_example :
    Outcome true
      (192 ∷ 168 ∷ 1 ∷ 9 ∷ [])
      (lan ∷ [])
      (interface_for_address4 (192 ∷ 168 ∷ 1 ∷ 9 ∷ []) (lan ∷ []))
interface_for_address4-Outcome_example =
    interface_for_address4-Outcome (192 ∷ 168 ∷ 1 ∷ 9 ∷ []) (lan ∷ [])

abbrev busy_below : ℕ → BindResult
busy_below port = if port == 49152 then eaddrinuse else bound

second_free : available_port busy_below 0 ≡ pos 49153
unfolding available_port
second_free = refl

abbrev two_fields : List (Bytes × Bytes)
two_fields = (codes "Accept", codes "a") ∷ (codes "ACCEPT", codes "b") ∷ []

find_header-collect_example :
    find_header (codes "accept") (collect two_fields []) ≡ some (codes "a,b")
unfolding find_header to_lower
find_header-collect_example = find_header-collect (codes "accept") two_fields []

abbrev lan_resolver : Resolver
lan_resolver = record {
  getaddrinfo = λ name. none;
  inet_pton4 = λ name. some (192 ∷ 168 ∷ 1 ∷ 1 ∷ []);
  inet_pton6 = λ name. none;
}

abbrev setup : Setup
setup = record {
  resolver = lan_resolver;
  inet_ntop = λ six b. codes "192.168.1.1";
  use_all_interfaces = false;
  netifs = lan ∷ [];
  host_validate = none;
  reject_hostnames = true;
  no_host_validate = false;
  port4 = 49152;
  port6 = 49152;
}

abbrev callbacks : Callbacks ℕ Bytes
callbacks = record { soap = none; gena = none; get = some (λ t st. (st + 1, some t.url)) }

abbrev opening : Opening
opening = record {
  fields = (codes "Host", codes "192.168.1.1:49152") ∷ [];
  arguments = [];
  url = codes "/x";
  method = codes "GET";
  client = record { family = af_inet; addr = 192 ∷ 168 ∷ 1 ∷ 9 ∷ []; port = 5000; scope_id = 0 };
}

answer_to_connection-IsValidated_example :
    (answer_to_connection setup callbacks opening [] 0 ≡ (0, none))
    ⊎ IsValidated setup (new_request opening)
answer_to_connection-IsValidated_example =
    answer_to_connection-IsValidated setup callbacks opening [] 0 refl
