-- ===== src/Lib.antt =====
-- A model of amlnf, the out-of-tree Linux driver for Amlogic's NAND: the write guard, the chip lock,
-- the physical device, the table of bad blocks, programming and erasing, the NTD layer with its
-- partitions, table and disks, the glue of the flash translation layer, and the records kept on the
-- flash with the boot loader's environment. Each definition follows
-- the C function whose name it carries.
--
-- How the program is put together. Module parameters (nfc_map.c) say whether the driver may write at
-- all, and which partitions get disks. Every operation on a physical device (dev/phydev.c) gets the
-- chip (dev/amlnf_ctrl.c: the chip's state, then the pins under a mutex), fills the chip's parameters,
-- calls the chip's operation (phy/chip_operation.c) once a page or a block, and releases the chip. An
-- NTD device (ntd/aml_ntdpart.c) turns pages and blocks into byte addresses and calls the physical
-- device; devices are kept in a table with use counts (ntd/aml_ntdcore.c). The disks
-- (ntd/aml_ntd_blkdevs.c) queue the requests of the block layer for a work item, which hands them to
-- the translation layer's glue (block/aml_nftl_block.c, block/aml_nftl_init.c). The driver keeps its
-- own records on reserved blocks (phy/chipenv.c), each under a name in the spare bytes of its pages;
-- the environment (dev/amlnf_env.c) is one of them.
--
-- Files and the code they model:
--   Prelude       shared names, tests on the native numbers, 32-bit and 64-bit words, outcomes
--   Guard         nfc_map.c: amlnf_refuse_write, amlnf_refused_count; Guard/Parts:
--                 amlnf_part_enabled. The parameters are the record Guard.
--   Phy/Chip      include/phynand.h, include/amlnf_ctrl.h: the chip, the World that all operations
--                 pass along (chip, nand_idleflag, spi_nand_mutex, guard, medium)
--   Phy/Lock      dev/amlnf_ctrl.c: amlnand_get_device, nand_get_chip and their releases, and
--                 dev/phydev.c: get_chip_state, set_chip_state
--   Phy/Bbt       phy/chip_operation.c: block_isbad, block_markbad, blk_modify_bbt_chip_op,
--                 update_bbt_chip_op over the table of blocks
--   Phy/Controller include/phynand.h: the controller's functions, and the cycles and retries of
--                 phy/chip_operation.c made of them
--   Phy/Program   phy/chip_operation.c: write_page, erase_block as commands to the controller
--   Phy/Chipenv   phy/chipenv.c: aml_info_checksum, the part of aml_info_check_datasum for the
--                 table of bad blocks, and the checksum that amlnand_update_bbt sets
--   Phy/Info      phy/chipenv.c: what a record on the flash is and where its pages are; Free:
--                 get_last_reserve_block and amlnand_get_free_block; Read:
--                 amlnand_read_info_by_name; Write: the pages of a record; Save:
--                 amlnand_save_info_by_name from the choice of the block to the table of blocks; Check:
--                 amlnand_check_info_by_name; Init: aml_info_check_datasum, amlnand_info_init;
--                 Update: amlnand_update_bbt, amlnand_info_error_handle
--   Dev/Env       dev/amlnf_env.c: amlnf_env_save, amlnf_env_read, aml_nand_update_ubootenv and the
--                 character device; Start: aml_ubootenv_init
--   Dev/Phydev    dev/phydev.c: the device record and the page of an address; Io: nand_read,
--                 nand_write, nand_erase with their loops; Bad: nand_block_isbad,
--                 nand_block_markbad, block_modifybbt, update_bbt
--   Ntd           ntd/aml_ntd.h: the NTD device
--   Ntd/Part      ntd/aml_ntdpart.c: the methods of an NTD device, allocate_partition,
--                 add_ntd_partitions, del_ntd_partitions
--   Ntd/Core      ntd/aml_ntdcore.c: add_ntd_device, del_ntd_device, get_ntd_device,
--                 get_ntd_device_nm, put_ntd_device, ntd_kmalloc_up_to
--   Ntd/Blkdevs   ntd/aml_ntd_blkdevs.c: requests, open and release, add_ntd_blktrans_dev; Queue:
--                 queue_rq and the work item as steps that interleave
--   Block         block/aml_nftl_init.c and block/aml_nftl_block.c: aml_blktrans_initialize,
--                 do_nftltrans_request, aml_nftl_thread, aml_nftl_reboot_notifier,
--                 aml_nftl_reinit_part
--   Block/Interface  block/aml_nftl_hw_interface.c: nand_read_page, nand_write_page,
--                 nand_erase_superblk, nand_is_blk_good, nand_mark_bad_blk
--   Samples       a small chip, device and translation layer for the examples; the modules named
--                 Tests hold the examples.
-- The other child modules hold the theorems, and are named for what they show.
--
-- Conventions. A pointer is a number, 0 for NULL. An option word is a number and an option is the
-- position of its bit; DEV_SERIAL_CHIP_MODE is 0, so that the branches on it are left out. An int is
-- an integer of Prelude/Int, an unsigned word is a natural number with its wrap-around written out:
-- unsigned long has 32 bits, as on the ARM core the driver is for. The table of blocks is a function
-- from a chip and a block to a status. `none` is what does not return: a caller that sleeps for ever,
-- a BUG(), a fault, or a loop that does not end. Printing is left out but for the lines of the guard.
-- The build's configuration is the one of include/amlnf_cfg.h and amlnf_type.h: CONFIG_NAND_AML_M8
-- and NAND_ADJUST_PART_TABLE are defined, AML_NAND_UBOOT and AML_NAND_RB_IRQ are not.
--
-- Loops. A transfer of `len` bytes has fuel `len + 1`: a round adds at least one byte when the page
-- size is not 0 and nothing wraps around. The allocation that backs off has fuel `size + 1`, as each
-- round makes the size smaller. The search of the last reserved block has fuel that is an argument:
-- it ends when 48 blocks within the fuel are good. So has the search of the first page that can be
-- read, which may jump back: the pages of a block and eleven are enough. The rounds of a record are
-- those of its pages. The retries of a status are seven reads. Other loops are over lists or counts.
--
-- Parameters: the controller's functions and read_page, the translation layer, which is an object file
-- without source, the chip's operations under the records, and what the kernel answers (pinctrl,
-- kmalloc, the idr, registration, blk-mq). They are records of functions over a medium of any type.
--
-- The wait for the command queue, check_cmdfifo_size, is a parameter that does not time out; a timeout
-- is a BUG() in the code. The rows of the planes, which a write keeps in controller->page_addr, are
-- carried beside the medium by `tracking` of Phy/Controller.
--
-- Not modelled: read_page with its read retries, the repair of the reserved blocks and the device
-- configuration (the rest of phy/chipenv.c), the detection of the chip (phy/new_nand.c, phy/id_table.c,
-- phy/chip.c, phy/amlnand_init.c), the boot area (phy/boot_operation.c), the controller
-- (phy/hw_controller.c), keys (dev/nandkey.c and
-- dev/secure_storage.c, which the build leaves out), suspend and resume, and the set-up of the
-- devices.
pub mod Prelude
pub mod Guard
pub mod Phy
pub mod Dev
pub mod Ntd
pub mod Block
pub mod Samples
