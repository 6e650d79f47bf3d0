-- ===== src/MockTelemetry/Shown.antt =====
-- From a data file of the pad server (pad_server/src/telemetry.c) to the lines that the telemetry client prints
-- (telem_client/src/telem_client_main.c).
use hysim.Base.{List, [], ◌∷◌}
use hysim.Packet.Message.{Body, pressure}
use hysim.MockTelemetry.Lines.{CsvLine, Replay}
use hysim.TelemClient.{Line, pressure_transducer, div_1000}
use hysim.TelemClient.Queue.{Delivery}

abbrev body_of : CsvLine → Body
body_of l = pressure (record { time = l.time; pressure = l.value; id = 1 })

abbrev deliveries : List CsvLine → List Delivery
deliveries [] = []
deliveries (l ∷ ls) =
    record { body = body_of l; line = pressure_transducer 1 (div_1000 l.value) l.time; behind = [] }
    ∷ deliveries ls

-- Each line of the file, as it should be printed.
abbrev pub printed_lines : List CsvLine → List Line
printed_lines [] = []
printed_lines (l ∷ ls) = pressure_transducer 1 (div_1000 l.value) l.time ∷ printed_lines ls
