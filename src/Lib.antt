-- ===== src/Lib.antt =====
-- A verification library for the Go program zigbee-go-home, a Zigbee coordinator: devices join a
-- network that an nRF52840 network co-processor (NCP) runs, and the program talks to them through
-- it over a serial line.
--
-- The parts and how they interact. internal/ncp speaks the NCP's serial protocol: frames with two
-- checksums, a link layer with acknowledgements and retries, requests that wait for a response of
-- their sequence number, and indications, which the driver turns into callbacks. Above it
-- internal/coordinator keeps the devices and decodes attribute values with internal/zcl;
-- internal/store keeps them on disk, and internal/mqtt, internal/web and internal/automation show
-- them to others.
--
-- The files.
--   Base            numbers, lists, bytes, texts, two's complement; Outcome is how a Go function ends.
--   Ncp/Crc         hdlcFCS16, zbossCRC8, zbossCRC16 and their tables
--                   (internal/ncp/nrf52840_hdlc.go, nrf52840_zboss.go).
--   Ncp/Frame       zbossEncodeRequest, zbossEncodeDataFrame, zbossEncodeACK, zbossDecodeFrame.
--   Ncp/RawReader   readRawZBOSSFrame.
--   Ncp/Hdlc        hdlcEncode, hdlcDecode, readHDLCFrame.
--   Ncp/Link        nextPktSeq, writeWithACK (internal/ncp/nrf52840.go).
--   Ncp/Zcl         the ZCL builders of nrf52840_zboss.go, parseAttributeResponses and typeSize of
--                   internal/ncp/zcl_parse.go, zclParseAttributeReports.
--   Ncp/Indication  handleIndication, handleAPSDEDataInd.
--   Ncp/Transport   the pending requests of NRF52840NCP, readLoop over frames and, in Stream, over
--                   bytes, resetState, and what request and ReadAttributes make of their channel.
--   Ncp/Commands    Init, FormNetwork, StartNetwork, PermitJoin, NetworkInfo, NetworkScan, the ZDO
--                   commands and the ZCL requests of nrf52840.go, as exchanges with a dongle.
--   Ncp/Examples    runs on concrete input.
--   Zcl/Value       the Go values of internal/zcl/types.go; toBool, toUint64, toInt64, toFloat64.
--   Zcl/Types       TypeSize, DecodeValue, EncodeValue (internal/zcl/types.go).
--   Zcl/Clusters    look-up, merge and registry of cluster definitions (internal/zcl/cluster.go,
--                   registry.go).
--   Coordinator/Decoders
--                   decodeTuyaDPs, decodeXiaomiTLV (internal/coordinator/properties.go).
--   Coordinator/Devices
--                   the address index, HandleJoin, HandleLeave, HandleAnnounce, RebuildAddrIndex and
--                   lookupOrRebuild (internal/coordinator/device_manager.go), over the interface of
--                   internal/store/store.go.
--   Coordinator/DeviceDb
--                   the device definitions and LoadDeviceDir (internal/coordinator/devicedb.go).
--   Coordinator/Interview
--                   Interview, readBasicAttributes, configureDevice, encodeReportChange
--                   (device_manager.go).
--   Coordinator/Properties
--                   the transforms of values, processProperties, processClusterCommandProperties
--                   (properties.go).
--   Coordinator/Reports
--                   HandleAttributeReport, HandleClusterCommand, emitStandardProperty, RemoveDevice
--                   (device_manager.go).
--   Coordinator/Events
--                   the event bus (internal/coordinator/events.go).
--   Coordinator/Examples
--                   runs on concrete input.
--   Bolt            BoltStore's calls on devices (internal/store/bolt.go), and that they keep the laws
--                   that the results on the device manager assume of the store.
--   Bolt/Examples   a small store that runs.
--   Mqtt/Discovery  buildDiscovery and buildRemoveDiscovery (internal/mqtt/discovery.go).
--   Mqtt/Bridge     the states that the bridge publishes, its topic names, what it does when a device
--                   leaves, and handleCommand (internal/mqtt/bridge.go).
--   Mqtt/Examples   runs on concrete input.
--
-- How code is modelled. A slice of bytes is the list of its bytes, an integer of w bits a number
-- below 2 ^ w with its wrap-around written out, an error a value, a panic the outcome `panic`. A
-- reader is the list of the bytes that it will deliver before its next error. The serial port, the
-- timer and the context of writeWithACK are a schedule: what each attempt sees, in order. A channel
-- of capacity one is its buffer and whether it is closed; the pending maps hold references to
-- channels, which a caller keeps when the entry is gone; a `select` may take any case that is
-- ready. Steps of the read loop and of callers are taken one after the other, as the mutexes order
-- them. A Go value in an interface is a constructor for its dynamic type; a float is its bit
-- pattern, and the machine's roundings are a parameter, FloatOps. A command of the network is an
-- exchange: what is sent, and a dongle that answers from all that it was sent. The store is a
-- parameter whose calls may fail; its laws say that what reads back of a device that was written is
-- as JSON makes it: numbers, flags and endpoints as they were, an integer among the properties as a
-- float, bytes as a text. BoltStore keeps them. The interview runs in a world that other goroutines
-- may change between its calls. Events and what is handed to the MQTT client are lists, in order.
-- An IEEE address is a number; its text is written out where a topic needs it.
--
-- Bounds and fuel. readRawZBOSSFrame runs on fuel of one turn more than the stream has bytes: each
-- turn takes a byte for good. The attribute parsers and the property decoders run on one turn more
-- than there are bytes, and readLoop on one turn more than there are frames. That the fuel is
-- enough is among the results. crc8Table is computed by the loop of the source.
--
-- Not modelled: logging; the goroutine that answers an OTA query, beyond its payload; opening,
-- closing and resetting the serial port; the table that cancels an earlier interview of a device;
-- the bridge's delayed discovery and its subscriptions, and the MQTT client, a third-party package;
-- the network state in internal/store; cmd, internal/web and internal/automation, which are I/O and
-- calls of third-party packages.
-- The rest of internal/coordinator (coordinator.go, binding.go, attribute_reader.go), and Close and
-- resetAndReconnect of the driver, are not modelled either.
pub mod Base
pub mod Bolt
pub mod Coordinator
pub mod Mqtt
pub mod Ncp
pub mod Zcl
