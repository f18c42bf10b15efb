-- ===== src/Examples.antt =====
-- The theorems at concrete inputs, and test runs of the models.
mod MsgTag
mod PrioBitmap
mod Cap
mod KernelList
mod MqttClient
mod Tasks
mod TaskCreate
mod Waiting
mod Transfer
mod Ptp
mod Servo
mod PtpCore
mod Json
mod Ring
mod Date
mod Clib
mod Queue
mod HeapOne
mod HeapFour
