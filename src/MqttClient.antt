-- ===== src/MqttClient.antt =====
-- port/mqtt/flint_mqtt.c: the MQTT client over coreMQTT. State has its state and what it publishes,
-- Command the commands that it answers, and Service the connection and the calls of the interface.
pub mod State
pub mod Command
pub mod Service
pub mod Reply
pub mod Phase
pub mod Attempt
pub mod Run
pub mod Backoff
pub mod Trim
pub mod Whole
pub mod Said
pub mod Pace
