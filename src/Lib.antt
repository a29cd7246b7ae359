-- ===== src/Lib.antt =====
-- A verification library for the kernel modules of mangOH, under linux_kernel_modules/.
--
-- The parts, and the files that model them:
--   * mt7697q, the queues that a driver shares with the MT7697 co-processor over SPI: Mt7697.antt.
--     Mt7697/Fields.antt has the bit fields of bits.h; Mt7697/Io.antt the register protocol of io.c,
--     one function for each of its functions (`write16` for mt7697io_write16), over the SPI transfers
--     of Mt7697/Host.antt, which stand for spi.c and the kernel. Mt7697/Io/Slave.antt says what a
--     slave that works does with each register access, and Io/Registers.antt and Io/Laws.antt derive what
--     the accesses to the memory do from it. Mt7697/Bus.antt has that as an interface, `Bus` with the laws
--     `IsBus`, which io.c fills and the queues take.
--   * The queues themselves, queue.c: Mt7697/Queue.antt. Queue/State.antt has the structs and the
--     accessors, Queue/Pointers.antt the offsets (mt7697q_pull_rd_ptr to mt7697q_read_state),
--     Queue/Transfer.antt mt7697q_read and mt7697q_write in the parts of their bodies, Queue/Info.antt
--     the struct of all six queues, Queue/Control.antt the requests, mt7697q_init and mt7697q_shutdown,
--     and Queue/Receive.antt the messages (mt7697q_proc_data) and the interrupt (mt7697q_irq_run of
--     interrupt.c). `contents` in Queue/Contents.antt is the abstract view of a queue: the list of the
--     words between its offsets, round the end of the ring.
--     Queue/Mutex.antt, Queue/Locking.antt, Queue/Interrupts.antt and Queue/Lifecycle.antt are about
--     the mutex, over a bus whose accesses do not end in a deadlock, such as io.c (Io/Endings.antt).
--   * rtc-pcf85063/rtc-pcf85063.c, a real-time clock: Rtc.antt, over the SMBus transfers and the BCD
--     conversions of the kernel; Rtc/Chip.antt says what a chip that works does with them.
--   * mangoh/mangoh_red_mux.c, the bus switches of the Red board: RedMux.antt; RedMux/Holds.antt is
--     what a switch promises, RedMux/Switching.antt is about one switch, and
--     RedMux/Interleaving.antt about both.
--   * iot_slot/iot-slot-eeprom.c, the description of an IoT card in its EEPROM: Eeprom.antt. A pointer
--     into the buffer is an offset, and a byte past the end of the buffer stops the run.
--     Eeprom/Walk.antt is about the walk with memory enough, Eeprom/Memory.antt about what it reads and
--     takes with whatever memory there is.
--   * iot_slot/iot-slot-core.c, the slots for IoT cards: IotSlot.antt has the state of a slot,
--     IotSlot/Calls.antt what the code asks of the kernel and of the board, IotSlot/Interfaces.antt
--     iot_slot_add_gpio to iot_slot_add_uart, IotSlot/Release.antt the release and the first requests,
--     and IotSlot/Driver.antt iot_slot_enumerate, iot_slot_probe and iot_slot_remove, which use
--     Eeprom.antt. All calls and their answers are kept in a log, and an answer may depend on the log
--     before it; IotSlot/Holdings.antt counts in it what is taken and given back. Neutral, Readings and
--     Loading are about the calls that take nothing, Adding, Pins, Devices and Items about the
--     interfaces, Releasing, Freeing, Enumerating, Probing and Settling about the driver's
--     calls.
--   * expander/expander.c, the outputs of the GPIO expander: Expander.antt.
--   * led/led.c, an LED on a pin: Led.antt.
--   * mt7697serial/uart.c, the serial port to the co-processor's Bluetooth part: Serial.antt, one
--     function for each of its functions. Serial/Stream.antt says what a file that works does with the
--     transfers, Serial/Transfers.antt is about reading, and Serial/Closing.antt about writing and
--     closing.
--   * rtc_sync/rtc_sync.c, the thread that keeps the clock and the system time in step: RtcSync.antt,
--     with the two copies of the time in RtcSync/Steps.antt and a round of the thread in
--     RtcSync/Checking.antt.
--   * mt7697wifi/txrx.c, the packets of the WiFi driver, with the writing and the reading of one in
--     wmi.c and the lookup of an interface in cfg80211.c: Wifi.antt has the state,
--     Wifi/Transmit.antt and Wifi/Receive.antt the functions. Wifi/Fifo.antt is the queue that the
--     sender promises; Wifi/Pool.antt, Slots, Turns and Refining show that it is that queue, and
--     Freeing counts what is freed. Wifi/Reading.antt and Wifi/Delivering.antt are about
--     the receiver.
--   * mangoh/mangoh_green.c, the devices of the Green board: Green.antt, with its probe and removal,
--     Green/Ledger.antt, which counts what calls leave registered, and Green/Probing.antt about both.
--   * mangoh/mangoh_yellow.c and mangoh/mangoh_red_board.c, the devices of the Yellow and of the Red
--     board: Board.antt has what they share, Yellow.antt and Red.antt their probes and removals.
--     Board/Ledger.antt counts what calls take and give back, Board/Steps.antt is about the steps of a
--     probe, and Board/Removal.antt about the removal.
--   * experimental/waveshare_eink/linux_kernel_modules/fb_waveshare_eink.c, outside of this directory,
--     the frame buffer of an e-ink display: Eink.antt has the commands and the update, with
--     Eink/Sending.antt about the events on the wire, Eink/Rows.antt about the rows of a picture, and
--     Eink/Showing.antt and Eink/Updating.antt about the update; Eink/Buffer.antt has the writes of a
--     program, and Eink/Writing.antt is about them. A wait for the panel is given a number of readings
--     of its busy line; the theorems assume that the line is idle within them.
--
-- A C function that returns a code is a function on a state into `Out` (Prelude/Monad.antt): a value
-- and the new state, an errno and the new state, or a fault: a mutex that is locked twice, a wait
-- without end, memory that is not the code's, a write past the end of an array, a BUG or a null
-- pointer. Prelude/Outcome.antt has the rules for what holds on all ways out. Numbers are natural
-- numbers, with the widths of the source written out where they matter (`% 2 ^ 16` for an offset).
-- What lies outside of the repository, the kernel and the chips, is a parameter: a record of
-- operations, and a record of laws for the theorems.
--
-- The walk over the descriptions takes a number of rounds, of which 63 are enough to reach the end
-- of the buffer, where the model stops: the code does not test for it.
-- The transfers of the serial port take as many rounds as there are bytes, since each moves one; its
-- poll and its receiver take bounds on the polls and the messages, as they run until the port closes.
-- The wait for the slave is a recursion on a number of polls (`polls` of Host), since the code waits
-- without a limit; the laws take a slave that is busy for fewer polls. The loop over the messages in
-- mt7697q_proc_data and the turn of an interrupt take a bound on the messages of one call. A sleep of
-- rtc_sync takes a bound on its wakes, of which one more than there are signals that break it off is
-- enough; its thread takes a bound on the rounds, as it runs until it is stopped.
--
-- Not modelled: the log; the registration with the kernel; the work items and the handler that hand
-- an interrupt over; the concurrency between threads, apart from the mutex of the queues; the other
-- kernel modules, among them the copies of drivers of the kernel, and the applications.
pub mod Prelude
pub mod Mt7697
pub mod Rtc
pub mod RedMux
pub mod Eeprom
pub mod IotSlot
pub mod Expander
pub mod Led
pub mod Serial
pub mod RtcSync
pub mod Green
pub mod Wifi
pub mod Board
pub mod Yellow
pub mod Red
pub mod Eink
