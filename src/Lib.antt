-- ===== src/Lib.antt =====
-- Verification library of zmk-ble-hid-host, a dongle that receives a Bluetooth LE pointing device
-- and passes its reports on as input events.
--
-- The program. A peer's HID Report Map, a byte string that the peer sends, is parsed once per link
-- into a layout: the bits of a report in which each field lies. Every report that then arrives is
-- queued on the Bluetooth thread, decoded on the system work queue by that layout, and published as
-- events of an input device. The parts, and the files that model them:
--   * Layout: the structs of include/zmk_ble_hid_host/hid_report_parser.h.
--   * Parser: drivers/input/hid_report_parser.c. Tags are the constants of items, State is the struct
--     parser and the item readers, Fields are set_field, assign_input and assign_kbd_input with their
--     helpers, Items are handle_main, handle_global and handle_local, and Walk is run_parser with the
--     two entry points.
--   * Decode: drivers/input/hid_report_decode.c. Extract is extract, Pointer is payload_bits and
--     zmk_hid_decode_report, Keyboard is zmk_hid_decode_keyboard_report.
--   * Publish: drivers/input/ble_hid_host.c. Device is ble_hid_host_publish and ble_hid_host_reset,
--     View is the state of each key at the consumer of the events.
--   * Central: drivers/input/hog_central.c. State holds its static variables, Discovery the GATT
--     state machine and the report map read, Reports the message queue with notify_cb and
--     report_work_handler, Advert ad_parse_cb, Peers device_found with addr_is_bonded, Link the scan
--     with its retry and the connection callbacks, and Startup the deferred bring-up, the heartbeat,
--     zmk_ble_hid_host_central_start and, of ble_hid_host.c, ble_hid_host_init. Events puts the
--     callbacks and handlers in sequences, and Frame is what the discovery leaves alone. Order has
--     the rounds of the work handler's loop and the notifications in any interleaving, and
--     Order.Published what these publish.
--   * Probe: probe/src/main.c, the stand-alone program that the central was ported from. State,
--     Discovery, Advert and Link are as for the central, Seen is should_log with its table, and
--     Events is a callback as one step. Wiring is what it subscribes of a peer's reports.
--   * Peer: no part of the program, but the device at the other end, from the HID specification.
--     Desc is its description with its report map and its reports, Meant what it means by them.
--     Groups, Usages, Axes, Placement, Shown, Short and Layout are what the parser makes of that map,
--     and Cut what it makes of a part of it; Slots, Numbers, Bytes, Reading and RoundTrip are what the
--     decoder makes of the reports, and Link and Session what the central makes of a whole link, by
--     the order of callbacks in Central.Session.
--   * Base: shared names, Boolean tests, lists, machine words and the laws of bits.
--
-- How the code is modelled. Numbers are natural numbers, and each cast or shift to a width is
-- written out as a remainder; signed values are Base.Signed.ℤ. Undefined behaviour of C (a shift by
-- the width or more, an access beyond an array) is the value `none`, but for the central's copy of an
-- advertised name, which is the prefix that the code takes. A function that writes through
-- a pointer returns what it leaves there. Loops are structural; the item walk and the work
-- handler's loop are on fuel, and one round more than there are bytes, or queued reports, is enough.
-- Zephyr is a parameter: which events the input queue takes (Publish.Device.Queue) and what the
-- Bluetooth stack answers (Central.State.Stack) are functions of all calls so far, and k_msgq is an
-- interface with its documented laws (Central.State.MessageQueue). A callback or handler is one
-- atomic step; several are put in any order.
--
-- The wait of the probe's main for a terminal is a recursion on its 100 rounds.
--
-- Not modelled: logging, but for the lines of the probe on advertisers and reports; the callbacks
-- that only log (pairing, connection parameters), and settings_load, which restores the stack's own
-- bonds; the devicetree macro that defines the device; tests/, which is another program. A fixture
-- of tests/parser is used as a test of the parser.
pub mod Base
pub mod Layout
pub mod Decode
pub mod Parser
pub mod Publish
pub mod Central
pub mod Probe
pub mod Peer
