-- ===== src/Lib.antt =====
-- solar-monitor reads batteries, solar regulators, inverters and rectifiers over Bluetooth LE and
-- publishes what they report to MQTT or a web server. This library models the parts of the program
-- that carry its logic and proves properties of them.
--
-- How a reading travels. ble.py holds a connection for each device and passes the bytes of every
-- notification to SolarDevice (solardevice.py), which hands them to the plugin of the device
-- (plugins/*/__init__.py). The plugin cuts the bytes into frames, checks them with asciihex.py or
-- modbus.py, and assigns the readings to the properties of a PowerDevice (solardevice.py), whose
-- setters drop what cannot be true. SolarDevice puts the values on a bounded queue; run_logger
-- (supervisor.py) takes them off and gives them to DataLogger (datalogger.py), which sends what has
-- changed. supervise (supervisor.py) ends the program when nothing arrives any more.
--
-- The files, and the code that each one models:
-- - Prelude and its children: shared names, lists and integers over the native numbers, Python's
--   dict and slices, int.from_bytes, and the methods of texts, for which letters, digits and white
--   space are those of ASCII.
-- - Numbers: the operations on Python's numbers that the code uses, as an interface. Floats are not
--   modelled; a theorem holds for every type with these operations, or names what it needs of them.
-- - Codec: codec.py, to_signed.
-- - AsciiHex: asciihex.py, field_value and checksum_matches. AsciiHex.HexInt is Python's int(text,
--   16), AsciiHex.Encode the wire format, which the devices write.
-- - Modbus: modbus.py. The CRC of the library libscrc is a parameter.
-- - Device.Definition: PowerDevice.validate. Device.Entities: the classes of devices and the limits
--   of their quantities. Device.Setters and Device.Getters: the properties. Device.Limits:
--   apply_limit_overrides. Device.Notify: SolarDevice, the queue, the writes and the commands.
--   Device.Plugins: the class Config of each plugin, and what the constructor makes of it.
-- - Meritsun: plugins/Meritsun, the stream of notifications. Meritsun.Message: its frames' fields.
-- - SolarLink: plugins/SolarLink, requests and polls. SolarLink.Update: its responses.
-- - VeDirect: plugins/VEDirect, the values. VeDirect.Session: the packets that it writes.
-- - Hacien: plugins/Hacien, with its CRC and messages. Topband: plugins/Topband, the state machine
--   and its messages. RenogyBatt: plugins/RenogyBatt, polls, responses and the capacity.
-- - Ble.Task: maintain_device of ble.py as a step relation; Ble.Fleet: all tasks over one lock.
--   Ble.Hold: _hold and _verify_link. Ble.Shutdown: the stop. Ble.Manager: the scan and the tasks of
--   BleManager. Monitor: the discovery and registration of monitor_app.py. Configuration:
--   load_config and what main and DataLogger take from the file. Startup: main, from the
--   configuration to the registered devices. Startup.Main: main as a whole, and its value. An
--   exception that nothing catches is `false` beside what was done before it; Monitor.Readable is
--   the registration without one, to compare with.
-- - Hci: hci.py, the interval in the configuration and the handle in what hcitool lists.
-- - Connection: connection.py. Supervisor: supervisor.py and SolarDevice._enqueue.
-- - DataLogger: DataLoggerMqtt of datalogger.py, with topics as pairs of a device and a variable.
--   DataLogger.Topics: the topics as texts, of which Distinct shows that the pairs stand for them.
--   DataLogger.Configs: discovery configs, aliases and availability. DataLogger.Log: DataLogger.
-- - Commands: on_message of datalogger.py and command_bridge of ble.py. A message and one device's
--   turn are one step each.
-- - Pipeline: plugins behind SolarDevice, from the bytes of a battery to the queue, and from a switch
--   of the broker to the writes of a regulator. Pipeline.Availability: the tasks of ble.py with what
--   they make DataLogger publish of a device's availability.
-- - Tests: a run of every theorem listed below at a concrete input; Tests.Milli is a type of
--   decimal numbers to run on.
-- The other children hold the proofs and are named for what they are about.
--
-- How state corresponds. An object's attributes are the fields of a record, and a method is a
-- function from the old record to the new one with its result beside it. The definitions of a
-- device, dictionaries in its __dict__, are an association list by attribute name. An exception is
-- `none` or a Bool beside the result. The outcome of a call to a broker, a web server or a device is
-- an argument. The loops of Python are recursion on a list, or on a count of rounds: Meritsun.drain
-- runs at most once more than the stream has bytes, which is enough since every round but the last
-- drops a byte; VeDirect.set_records runs at most as often as the buffer has bytes, each round
-- dropping eight; write_with_retry runs `attempts` times.
--
-- Not modelled: the calls of bleak and the threads of BleManager, the arguments of the command line
-- and the signals (monitor_app.py), the interpolation of configparser, logging to files (duallog.py),
-- on_subscribe, which only logs, the text that json.dumps makes of a config, temperatures in
-- Fahrenheit, cell_voltage, log lines, the capture of notifications to a file, and threads but for
-- the tasks of ble.py: each function is one step.
pub mod Prelude
pub mod Numbers
pub mod Codec
pub mod AsciiHex
pub mod Modbus
pub mod Commands
pub mod Connection
pub mod Supervisor
pub mod DataLogger
pub mod Device
pub mod Meritsun
pub mod SolarLink
pub mod VeDirect
pub mod Tests
pub mod Hacien
pub mod Topband
pub mod Ble
pub mod RenogyBatt
pub mod Monitor
pub mod Hci
pub mod Configuration
pub mod Startup
pub mod Pipeline
