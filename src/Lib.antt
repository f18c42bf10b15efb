-- ===== src/Lib.antt =====
-- FlintRTOS: the kernel's portable core and its security primitives.
--
-- KernelList models kernel/list.c and include/FlintRTOS/list.h, the circular doubly linked lists
-- of the scheduler. Memory is kept field by field, as functions of addresses: items at even
-- addresses, the end marker of the list at l at 2 * l + 1, NULL at 0. vListInsertEnd is
-- insert_end, vListInsert is insert (its loop is walk, on one round of fuel more than the list has
-- items, which KernelList/Insert.antt shows to be enough), uxListRemove is remove.
-- KernelList/Valid.antt says when memory holds a list, and Holds in KernelList/Insert.antt when it
-- holds many at once.
--
-- Tasks models the scheduler of kernel/tasks.c over that memory: Kernel is its file-scope variables
-- with the priorities of the tasks, and a list is known by its number, 1 to 32 for the ready lists, 33 for the
-- delayed tasks, 34 for the suspended ones and from 35 on the waiting lists of the queues. Tasks/Valid.antt says
-- which items may stand in which list. vTaskSwitchContext is switch_context, xTaskIncrementTick is
-- increment_tick (one round of fuel more than there are delayed tasks), vTaskDelay is delay,
-- vTaskPlaceOnEventList is place_on_event_list, xTaskRemoveFromEventList is remove_from_event_list,
-- vTaskPriorityInherit is priority_inherit, vTaskPriorityDisinherit is priority_disinherit.
-- A critical section is one step. xTaskCreate, the start of the scheduler and the stack check are in
-- TaskCreate; the trace output is not modelled.
--
-- Queue models the circular buffer of kernel/queue.c: a pointer into the storage is its distance from
-- pcHead, a byte is a number, and memcpy of kernel/flint_libc.c is copy_bytes. xQueueCreate is create,
-- prvCopyIn is copy_in and prvCopyOut is copy_out. Contains in Queue/Deque.antt says which items a buffer
-- holds.
--
-- Transfer models the calls of kernel/queue.c on the buffer and the scheduler together: prvSend is send,
-- xQueueReceive is receive, xQueueCreateMutex is create_mutex. A state is a System: the scheduler, the
-- buffer and the holder of a mutex. What interrupts and other tasks do while a call is outside its
-- critical sections is a function argument, others, on which the theorems put only that it keeps the
-- queue well formed.
--
-- HeapOne models pvPortMalloc of portable/MemMang/heap_1.c as malloc, with the total size of the heap as an
-- argument.
--
-- HeapFour models portable/MemMang/heap_4.c, the first-fit allocator with a free list in the order of
-- addresses: pvPortMalloc is malloc, vPortFree is free, vPortInitialiseBlocks is initialise and
-- prvInsertBlockIntoFreeList is insert_block. The address and the size of ucHeap are arguments. The two
-- loops have the address of pxEnd as fuel: each round goes to a block at a higher address, so that it
-- is enough. HeapFour/Tiles.antt and HeapFour/Pool.antt see a pool as a row of blocks side by side.
--
-- MsgTag models kernel/msgtag.c, PrioBitmap models kernel/prio_bitmap.c, and Cap models
-- kernel/cap.c, each with its header under include/flint; Status is include/flint/status.h. They
-- are independent of the kernel core, as in the source. A word of 32 bits is a number with its
-- wrap-around written out. The C operators & and | are the native ones, with the laws of Bits. Both
-- CNode arguments of a capability operation may name one CNode.
--
-- TaskCreate models what kernel/tasks.c does to create a task (xTaskCreate is create_task), to start the scheduler,
-- to check stacks and to list the tasks, with pxPortInitialiseStack of portable/LLVM_AArch64/port.c. A stack is
-- a range of words of 8 bytes, and the heap is two function arguments.
--
-- PtpTime models port/ptp/ptp_time.c: a time is two signed words of 32 bits, and each result is wrapped to
-- its width. A signed number is one of Int, with the division of C, and overflow, which C leaves open, wraps.
-- PtpMsg models port/ptp/ptp_msg.c: a message is a function from the distance to the byte there, and the loops
-- over bytes are recursive on the number of bytes.
--
-- PtpClock models port/ptp/ptp_clock.c, the clock as a line over the counter, and PtpServo models
-- port/ptp/ptp_servo.c, the controller that steers it: ptp_servo_sample is sample, with one definition for
-- each case of its switch. The frequency of the counter and the values read from it are arguments.
--
-- PtpCore models port/ptp/ptp_core.c, the slave: Core is its state, ptp_core_init, ptp_core_rx and
-- ptp_core_poll are init, rx and poll of PtpCore/Port.antt, and the handlers of the messages stand in
-- PtpCore/Measure.antt. A record Around holds what is around a call: the frequency and the reads of the
-- counter, the transmit hook, and what the local arrays hold at first. PtpDataset has the comparison of
-- masters, PtpDelay the median filter of the path delay, and PtpStats the statistics of report with isqrt64,
-- whose loops get 33 tests each, one for each pair of bits of a word and the one that ends the loop.
--
-- PtpDate models ptp_format_utc of port/ptp/ptp_core.c, the date and the text of a time; IsDate in
-- PtpDate/Calendar.antt says which date a day has.
--
-- Jsonw models port/mqtt/jsonw.c, the JSON writer: a text is the list of its bytes before the terminator.
-- The loop of fm_u64_to_str gets twenty rounds, one for each digit of a 64-bit word.
--
-- MqttTransport models port/mqtt/transport_raw.c, the ring of received bytes between lwIP's callbacks and the
-- MQTT client: on_recv fills it and mqtt_transport_recv, which is recv, empties it. What fm_plat_pump does is a
-- function argument, and so are lwIP's answers.
--
-- MqttClient models port/mqtt/flint_mqtt.c, the MQTT client. What it calls (mqtt_platform.h, the transport and
-- coreMQTT) is a record of functions on a world that they read and change, Platform; Running is the client,
-- that world, and the calls made so far. MqttClient/State has the static state g and what is published,
-- Command has handle_command and on_event, Service has drop (drop_connection), try_connect, flint_mqtt_init and
-- flint_mqtt_service. A char array that holds a string is the list of its bytes before the terminator, and the
-- buffers of JSON are functions of addresses. The length of a reply is looked for in the 1,024 bytes of
-- its buffer. MqttClient/Phase is the order of the calls as an automaton. The log output is left out.
--
-- Clib models the functions on blocks and strings of kernel/flint_libc.c and port/lwip/lwip_libc.c, with
-- fm_strlcpy (strlcpy) and fm_strlcat (strlcat) of port/mqtt/jsonw.c, on a memory as a function of
-- addresses. A loop up to a terminator runs on fuel; more than the bytes of the string is enough. Printf
-- models vsnprintf of port/lwip/lwip_libc.c: the format is the list of its bytes, and an argument is a word or a
-- string. Printf/Meaning.antt says which text a format means.
--
-- Base holds the shared tests, lists and function update; Bits the words of C. Examples holds the
-- theorems at concrete inputs and test runs.
--
-- Not modelled: the log output of port/ptp/ptp_core.c, and the two bindings of it to
-- lwIP; the MQTT transport over
-- sockets and the opening of a connection; the port of lwIP, and rand of its C library;
-- the port to AArch64 but for the first frame of a stack, the drivers and the boot code, which are device
-- registers and assembly; the demo applications; the vendored libraries; the other heap schemes, which
-- are stubs or wrap the C library; the skeleton modules, which have no logic.
pub mod Base
pub mod Bits
pub mod Status
pub mod MsgTag
pub mod PrioBitmap
pub mod Cap
pub mod KernelList
pub mod Tasks
pub mod TaskCreate
pub mod Transfer
pub mod Int
pub mod PtpTime
pub mod PtpMsg
pub mod PtpClock
pub mod PtpCore
pub mod PtpStats
pub mod PtpServo
pub mod Jsonw
pub mod Clib
pub mod Printf
pub mod MqttClient
pub mod MqttTransport
pub mod PtpDate
pub mod PtpDataset
pub mod PtpDelay
pub mod Queue
pub mod HeapOne
pub mod HeapFour
mod Examples
