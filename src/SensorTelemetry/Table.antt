-- ===== src/SensorTelemetry/Table.antt =====
-- The converters and their channels, as pad_server/src/telemetry.c lists them.
use Prim.Native.String.{String}
use hysim.Base.{ℕ, List, [], ◌∷◌, ℤ, negsuc, Run}
use hysim.Packet.{telem_temp, telem_pressure, telem_thrust, telem_cont}
use hysim.Sensors.Conversion.{AdcChannel}

-- adc_device_t
pub record AdcDevice : Type 0 where
  pub id : ℕ
  pub fd : ℤ
  pub devpath : String
  pub n_channels : ℕ
  pub channels : List AdcChannel

-- The requests of the ADS1115 driver, for a descriptor and a channel: a conversion is triggered, and its
-- result read.
pub record Adc (W : Type 0) : Type 0 where
  pub trigger_conversion : ℤ → ℕ → Run W ℤ
  pub read_channel_no_conversion : ℤ → ℕ → Run W (ℤ × ℕ)

abbrev pub channel : ℕ → ℕ → ℕ → AdcChannel
channel num id type = record { channel_num = num; sensor_id = id; type = type }

abbrev pub no_channel : AdcChannel
no_channel = channel 0 0 0

abbrev pub adc_devices_table : List AdcDevice
adc_devices_table =
    record {
      id = 0;
      fd = negsuc 0;
      devpath = "/dev/adc0";
      n_channels = 4;
      channels =
          channel 4 0 telem_temp
          ∷ channel 5 1 telem_temp
          ∷ channel 6 4 telem_pressure
          ∷ channel 7 2 telem_pressure
          ∷ [];
    }
    ∷ record {
      id = 1;
      fd = negsuc 0;
      devpath = "/dev/adc1";
      n_channels = 4;
      channels =
          channel 4 0 telem_pressure
          ∷ channel 5 1 telem_pressure
          ∷ channel 6 5 telem_pressure
          ∷ channel 7 3 telem_pressure
          ∷ [];
    }
    ∷ record {
      id = 2;
      fd = negsuc 0;
      devpath = "/dev/adc2";
      n_channels = 2;
      channels = channel 4 0 telem_thrust ∷ channel 7 1 telem_cont ∷ [];
    }
    ∷ []
