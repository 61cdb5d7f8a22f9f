-- ===== src/Examples/Instrument.antt =====
-- instrument_api.c on a host with one wireless interface, one Bluetooth adapter and a GPS daemon.
use sensor_lib.Prelude.{
  ℕ, ◌/◌, ◌≡◌, refl, true, false, none, some, List, [], ◌∷◌, ◌++◌, Text, bytes, pos, minus_one,
  ◌==◌, if◌then◌else◌, text_eq, length, All, arith, ltb,
}
use sensor_lib.Types.{bluetooth, device_discovered, success, error}
use sensor_lib.Os.{succeeds, fails, eagain}
use sensor_lib.Comms.World.{World, opened, FreshSockets}
use sensor_lib.Comms.Lifecycle.{Process}
use sensor_lib.Comms.Runtime.{new_runtime}
use sensor_lib.CText.{unsigned_decimal, copy_string, is_space}
use sensor_lib.Examples.Comms.{os, world, no_process}
use sensor_lib.Examples.Scanner.{netlink, trigger_test, signals_fit}
use sensor_lib.Bluez.Discover.{bluez_discover}
use sensor_lib.Instrument.State.{Kernel, position}
use sensor_lib.Instrument.Json.{json_parse_string, pattern_of}
use sensor_lib.Instrument.Json.Escape.{escape, json_parse_string-escape}
use sensor_lib.Instrument.Wifi.{up_bit, with_up, wifi_set_up, wifi_get_my_device}
use sensor_lib.Instrument.Hci.{bluetooth_get_adapter_info}
use sensor_lib.Instrument.Gps.{split_lines, gps_answer, gps_receive}
use sensor_lib.Instrument.Gps.Lines.{Fits}
use sensor_lib.Instrument.Gps.Stream.{text_of, first_tpv, said, gps_receive-said}
use sensor_lib.Instrument.Action.{
  bluetooth_links, gps_position, Request, instrument_action, register_callback,
  create_instrument_api, destroy_instrument_api,
}
use sensor_lib.Instrument.Descriptors.{Leaves, instrument_action-Quiet}
use sensor_lib.Instrument.Switches.{Switched, wifi_set_up-Switched}
use sensor_lib.Instrument.Sessions
use sensor_lib.Instrument.Sessions.{session}
use sensor_lib.Instrument.Sessions.Settling.{session-Settled}
use sensor_lib.Instrument.Sessions.Calls.{Settled}
use sensor_lib.Os.{Trace}
use sensor_lib.Comms.Serving.{FreshClients}
use sensor_lib.Instrument.Reports.{IsReport, queries-IsReport}
use sensor_lib.Instrument.Handles.{
  Use, acquire, release, use_handles, Held, use_handles-Held, null_destroy_stops,
}

-- Two descriptors, 3 and 4
abbrev host : World
host = record world {
  os = record os {
    socket = λ t. if opened 3 t == 0 then pos 3 else if opened 4 t == 0 then pos 4 else minus_one;
    accept = λ t fd. if opened 5 t == 0 then succeeds 5 else fails eagain;
  };
}

host-FreshSockets : FreshSockets host
host-FreshSockets = λ t fd h. ground arith

host-FreshClients : FreshClients host
host-FreshClients = λ t fd n h. ground arith

-- A report arrives in two pieces, after another line.
abbrev stream : List Text
stream =
    bytes "{\"class\":\"VERSION\"}\n{\"class\":\"TP"
    ∷ bytes "V\",\"mode\":3,\"lat\": 52,\"lon\":13}\n"
    ∷ []

abbrev kernel : Kernel
kernel = record {
  world = host;
  interfaces = λ t. some (bytes "lo" ∷ bytes "wlan0" ∷ []);
  is_wireless = λ t name. text_eq name (bytes "wlan0");
  flags = λ t name. some 4098;
  accepts_flags = λ t name flags. true;
  hardware_address = λ t name. some (0 ∷ 17 ∷ 34 ∷ 171 ∷ 205 ∷ 255 ∷ []);
  essid = λ t name. some (bytes "net");
  lacks_bluetooth = λ t. false;
  adapter_ids = λ t. some (0 ∷ []);
  adapter_info = λ t i. some (record {
    id = i;
    mac_address = bytes "00:11:22:33:44:55";
    name = bytes "hci0";
    flags = 1;
    type = 0;
  });
  power = λ t up id. succeeds 0;
  backend = λ input n out len t. bluez_discover (λ command. none) out len;
  netlink = λ t name. netlink;
  strtold = unsigned_decimal;
  read_time = λ s. none;
  time = λ t. pos 1000;
  gps_stream = λ t. stream;
  gps_endless = false;
}

request : Request
request = record { input = none; input_len = 0; has_output = true; has_len = true }

instrument_action-Quiet_example :
    ((fd : ℕ)
      → opened fd (instrument_action kernel gps_position request no_process []).1 ≡ opened fd [])
    × Leaves no_process (instrument_action kernel gps_position request no_process []).0
instrument_action-Quiet_example =
    instrument_action-Quiet kernel host-FreshSockets gps_position request no_process [] (λ e. cc e)
      (λ e. cc e) (λ e. cc e) (λ e. cc e) (λ e. cc e)

stream-Fits : Fits (split_lines (text_of stream))
unfolding split_lines
stream-Fits = omega arith

-- The position of the report
stream_test :
    (gps_receive kernel 3 []).0
    ≡ some (record {
      status = success;
      output =
          position (record { lat = 52; lon = 13; alt = 0; timestamp = pos 1000; mode = pos 3 });
      output_len = some 1;
    })
unfolding gps_receive text_eq
stream_test = refl

gps_receive-said_example :
    let lines = (split_lines (text_of (kernel.gps_stream []))).0 in
    (gps_receive kernel 3 []).0 ≡ gps_answer (said kernel (pos 1000) lines (first_tpv lines))
gps_receive-said_example = gps_receive-said kernel 3 (pos 1000) [] (λ u. refl) stream-Fits

blank : All (λ d. is_space d ≡ true) (bytes " ")
unfolding is_space
blank = (refl, tt)

json_parse_string-escape_example :
    json_parse_string 64
      (bytes "{"
        ++ (pattern_of (bytes "time")
            ++ (bytes " " ++ b'"' ∷ (escape (bytes "a\"b") ++ b'"' ∷ bytes "}"))))
      (bytes "time")
    ≡ (if ltb (length (bytes "a\"b")) 64 then some (bytes "a\"b") else none)
json_parse_string-escape_example =
    json_parse_string-escape 64 (bytes "time") (bytes "{") (bytes " ") (bytes "a\"b") (bytes "}")
      (omega arith) (λ e. cc e, tt) blank

turned_on : (wifi_set_up kernel true []).0 ≡ success
unfolding wifi_set_up text_eq copy_string
turned_on = refl

wifi_set_up-Switched_example :
    (s : Switched kernel true [] (wifi_set_up kernel true []).1) × (up_bit (with_up true s.flags)
      ≡ true)
    × (with_up true s.flags / 2 ≡ s.flags / 2)
wifi_set_up-Switched_example = wifi_set_up-Switched kernel true [] turned_on

queries-IsReport_example :
    IsReport 150 (wifi_get_my_device kernel true true []).0
    × IsReport 10 (bluetooth_get_adapter_info kernel true true []).0
queries-IsReport_example = queries-IsReport kernel true true []

abbrev uses : List Use
uses = acquire true true ∷ acquire false true ∷ acquire true false ∷ release ∷ []

use_handles-Held_example : Held (use_handles uses (0, no_process) []).0
use_handles-Held_example = use_handles-Held uses 0 no_process [] (refl, refl)

abbrev one_handle : Process
one_handle = record { runtime = some (record new_runtime { running = true }); refcount = 1 }

null_destroy_stops_example :
    let r = create_instrument_api false true one_handle [] in
    let g' = (destroy_instrument_api r.0.1 r.1).0 in
    (r.0.0 ≡ false)
    × (g'.refcount ≡ 0)
    × (g'.runtime ≡ none)
    × ((register_callback bluetooth device_discovered (some 5) g').0 ≡ error)
null_destroy_stops_example =
    null_destroy_stops one_handle true [] bluetooth device_discovered (some 5) ((refl, refl), refl)

-- A handle is made and used; the threads work; a second creation fails; the handle is destroyed.
abbrev calls : List Sessions.Call
calls =
    Sessions.create true true
    ∷ Sessions.register bluetooth device_discovered (some 5)
    ∷ Sessions.discovery_thread
    ∷ Sessions.act gps_position request
    ∷ Sessions.act bluetooth_links request
    ∷ Sessions.udp_thread 2
    ∷ Sessions.create true false
    ∷ Sessions.destroy
    ∷ []

session-Settled_example :
    (g' : Process) × (t' : Trace) × (session kernel calls no_process [] ≡ some (g', t'))
    × Settled g'.runtime t'
session-Settled_example =
    session-Settled kernel host-FreshSockets host-FreshClients refl
      (λ t name. ((success, trigger_test), signals_fit)) calls no_process [] (λ fd. refl)
